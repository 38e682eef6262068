-- ===== src/Audit/Store/Keys.antt =====
-- The Redis keys of the sequence counters: no two scopes or ids share one.
use Prim.Native.Char.{Char, code}
use text.Mathlib.TextLemmas.{
  cons-append, append_cancel_left, head-eq_of_cons-eq, tail-eq_of_cons-eq,
}
use voting_secure.Base.{◌≡◌, ◌≢◌, refl, sym, ap, ◌∙◌, String, arith, ◌<>◌}
use voting_secure.Audit.Types.{Scope, scope_text}
use voting_secure.Audit.Store.{sequence_key}

-- What a key has behind `audit_seq:`.
tag : Scope → String → String
tag Scope.global id = "global"
tag scope id = scope_text scope <> (":" <> id)

sequence_key-tag :
    (scope : Scope) (id : String) → sequence_key scope id ≡ "audit_seq:" <> tag scope id
unfolding tag
sequence_key-tag Scope.global id = refl
sequence_key-tag _ id = refl

apart :
    (c d : Char) (s t : String)
    → code c ≢ code d
    → ◌≢◌ {A = String} (String.◌∷◌ c s) (String.◌∷◌ d t)
apart c d s t ne e = ne (ap code (head-eq_of_cons-eq e))

group_text : (x : String) → "group" <> x ≡ String.◌∷◌ "g" (String.◌∷◌ "r" ("oup" <> x))
group_text x = cons-append "g" "roup" x ∙ ap (String.◌∷◌ "g") (cons-append "r" "oup" x)

voting_text : (x : String) → "voting" <> x ≡ String.◌∷◌ "v" ("oting" <> x)
voting_text x = cons-append "v" "oting" x

survey_text : (x : String) → "survey" <> x ≡ String.◌∷◌ "s" ("urvey" <> x)
survey_text x = cons-append "s" "urvey" x

-- Two scopes in the order of the drawing.
data Before : Scope → Scope → Type 0 where
  global_group : Before Scope.global Scope.group
  global_voting : Before Scope.global Scope.voting
  global_survey : Before Scope.global Scope.survey
  group_voting : Before Scope.group Scope.voting
  group_survey : Before Scope.group Scope.survey
  voting_survey : Before Scope.voting Scope.survey

tags_apart : {s t : Scope} → Before s t → (i j : String) → tag s i ≢ tag t j
unfolding tag
tags_apart global_group i j e =
    apart "l" "r" "obal" _ (λ h. absurd (omega arith)) (tail-eq_of_cons-eq (e ∙ group_text _))
tags_apart global_voting i j e =
    apart "g" "v" "lobal" _ (λ h. absurd (omega arith)) (e ∙ voting_text _)
tags_apart global_survey i j e =
    apart "g" "s" "lobal" _ (λ h. absurd (omega arith)) (e ∙ survey_text _)
tags_apart group_voting i j e =
    apart "g" "v" _ _ (λ h. absurd (omega arith)) (sym (group_text _) ∙ e ∙ voting_text _)
tags_apart group_survey i j e =
    apart "g" "s" _ _ (λ h. absurd (omega arith)) (sym (group_text _) ∙ e ∙ survey_text _)
tags_apart voting_survey i j e =
    apart "v" "s" _ _ (λ h. absurd (omega arith)) (sym (voting_text _) ∙ e ∙ survey_text _)

keys_apart : {s t : Scope} → Before s t → (i j : String) → sequence_key s i ≢ sequence_key t j
keys_apart {s} {t} b i j e =
    tags_apart b i j
      (append_cancel_left "audit_seq:" _ _ (sym (sequence_key-tag s i) ∙ e ∙ sequence_key-tag t j))

-- The scopes whose counters carry an id.
abbrev pub IsEntity : Scope → Type 0
IsEntity Scope.global = ⊥
IsEntity _ = Unit

id_of_tag : (t : String) (i j : String) → t <> (":" <> i) ≡ t <> (":" <> j) → i ≡ j
id_of_tag t i j e = append_cancel_left ":" _ _ (append_cancel_left t _ _ e)

-- Two ids of one scope have different keys.
pub sequence_key-injective :
    (scope : Scope) (i j : String)
    → IsEntity scope
    → sequence_key scope i ≡ sequence_key scope j
    → i ≡ j
sequence_key-injective Scope.global i j entity e = absurd entity
sequence_key-injective Scope.group i j entity e =
    id_of_tag "group" i j (append_cancel_left "audit_seq:" _ _ e)
sequence_key-injective Scope.voting i j entity e =
    id_of_tag "voting" i j (append_cancel_left "audit_seq:" _ _ e)
sequence_key-injective Scope.survey i j entity e =
    id_of_tag "survey" i j (append_cancel_left "audit_seq:" _ _ e)

-- Two different scopes have different keys of sequence counters, whatever the ids.
pub sequence_key-ne : (s t : Scope) (i j : String) → s ≢ t → sequence_key s i ≢ sequence_key t j
sequence_key-ne Scope.global Scope.global i j ne e = ne refl
sequence_key-ne Scope.global Scope.group i j ne e = keys_apart global_group i j e
sequence_key-ne Scope.global Scope.voting i j ne e = keys_apart global_voting i j e
sequence_key-ne Scope.global Scope.survey i j ne e = keys_apart global_survey i j e
sequence_key-ne Scope.group Scope.global i j ne e = keys_apart global_group j i (sym e)
sequence_key-ne Scope.group Scope.group i j ne e = ne refl
sequence_key-ne Scope.group Scope.voting i j ne e = keys_apart group_voting i j e
sequence_key-ne Scope.group Scope.survey i j ne e = keys_apart group_survey i j e
sequence_key-ne Scope.voting Scope.global i j ne e = keys_apart global_voting j i (sym e)
sequence_key-ne Scope.voting Scope.group i j ne e = keys_apart group_voting j i (sym e)
sequence_key-ne Scope.voting Scope.voting i j ne e = ne refl
sequence_key-ne Scope.voting Scope.survey i j ne e = keys_apart voting_survey i j e
sequence_key-ne Scope.survey Scope.global i j ne e = keys_apart global_survey j i (sym e)
sequence_key-ne Scope.survey Scope.group i j ne e = keys_apart group_survey j i (sym e)
sequence_key-ne Scope.survey Scope.voting i j ne e = keys_apart voting_survey j i (sym e)
sequence_key-ne Scope.survey Scope.survey i j ne e = ne refl
