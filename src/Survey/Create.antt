-- ===== src/Survey/Create.antt =====
-- What `create` of backend/src/surveys/surveys.service.ts makes of a request: the questions are
-- completed and checked, and given to the repository's `createSurvey`. A step of a scale is at least 1
-- (backend/src/surveys/dto/question.dto.ts).
pub mod Scale
pub mod Tests
use voting_secure.Base.{
  ℕ, zero, suc, ◌+◌, ◌-◌, String, ◌<>◌, number_text, Bool, true, false, not, Option, none, some,
  get_or, List, [], ◌∷◌, map, length, ltb, ◌==◌, ◌&&◌, ◌||◌, if◌then◌else◌, Result, ok, err, ◌>>=◌,
  ◌>>◌, guard, found,
}
use voting_secure.Base.Int.{ℤ, pos, negsuc, pos_part, neg_part, ◌+ℤ◌, ltb_ℤ}
use voting_secure.Groups.{GroupStore, GroupError, check_admin_permission}
use voting_secure.Survey.Types.{
  QuestionType, single_choice, multiple_choice, scale, freeform, ChoiceConfig,
}

pub record ScaleConfig : Type 0 where
  pub scale_min : ℤ
  pub scale_max : ℤ
  pub step : Option ℕ

pub record OptionData : Type 0 where
  pub text : String
  pub order : Option ℤ

pub record NewQuestion : Type 0 where
  pub text : String
  pub type : QuestionType
  pub is_required : Option Bool
  pub order : Option ℕ
  pub choice_config : Option ChoiceConfig
  pub scale_config : Option ScaleConfig
  pub options : Option (List OptionData)

pub record QuestionData : Type 0 where
  pub text : String
  pub type : QuestionType
  pub is_required : Bool
  pub order : ℕ
  pub choice_config : Option ChoiceConfig
  pub scale_config : Option ScaleConfig
  pub options : List OptionData

pub record NewSurvey : Type 0 where
  pub title : String
  pub description : Option String
  pub group_id : String
  pub is_public : Option Bool
  pub allow_abstain : Option Bool
  pub start_at : Option ℕ
  pub end_at : Option ℕ
  pub questions : List NewQuestion

pub record SurveyData : Type 0 where
  pub title : String
  pub description : Option String
  pub group_id : String
  pub is_public : Bool
  pub allow_abstain : Bool
  pub start_at : Option ℕ
  pub end_at : Option ℕ
  pub questions : List QuestionData

pub data CreateError : Type 0 where
  not_permitted : GroupError → CreateError
  scale_required scale_not_ordered options_required : String → CreateError

-- i.toString()
abbrev pub int_text : ℤ → String
int_text (pos n) = number_text n
int_text (negsuc n) = "-" <> number_text (suc n)

-- for (let i = scaleMin; i <= scaleMax; i += step)
unfoldable pub scale_loop : (fuel : ℕ) (i max : ℤ) (step : ℕ) → List ℤ
scale_loop zero i max step = []
scale_loop (suc fuel) i max step =
    let rest = scale_loop fuel (i +ℤ pos step) max step in if ltb_ℤ max i then [] else i ∷ rest

-- max - min, where max is the greater.
abbrev pub distance : (min max : ℤ) → ℕ
distance min max = pos_part max + neg_part min - (pos_part min + neg_part max)

-- With one round for each number from the least to the greatest, and one that ends the loop.
abbrev pub scale_values : ScaleConfig → List ℤ
scale_values c =
    scale_loop (suc (suc (distance c.scale_min c.scale_max))) c.scale_min c.scale_max
      (get_or c.step 1)

abbrev pub is_scale : QuestionType → Bool
is_scale scale = true
is_scale _ = false

abbrev pub is_choice : QuestionType → Bool
is_choice single_choice = true
is_choice multiple_choice = true
is_choice _ = false

unfoldable pub scale_options : NewQuestion → Result CreateError (List OptionData)
unfolding scale_loop number_text
scale_options q = do
  c ← found q.scale_config (scale_required q.text)
  guard (ltb_ℤ c.scale_min c.scale_max) (scale_not_ordered q.text)
  ok (map (λ i. record { text = int_text i; order = some i }) (scale_values c))

abbrev pub question_options : NewQuestion → Result CreateError (List OptionData)
question_options q =
    let given = get_or q.options [] in
    if is_scale q.type && length given == 0 then scale_options q else ok given

unfoldable pub question_data : NewQuestion → Result CreateError QuestionData
unfolding scale_options
question_data q = do
  options ← question_options q
  guard (not (is_choice q.type && ltb (length options) 1)) (options_required q.text)
  ok (record {
    text = q.text;
    type = q.type;
    is_required = get_or q.is_required true;
    order = get_or q.order 0;
    choice_config = q.choice_config;
    scale_config = q.scale_config;
    options = options;
  })

-- The first question that is refused ends the request.
unfoldable pub questions_data : List NewQuestion → Result CreateError (List QuestionData)
unfolding question_data
questions_data [] = ok []
questions_data (q ∷ qs) = do d ← question_data q; ds ← questions_data qs; ok (d ∷ ds)

-- A public survey starts now unless it has started before.
abbrev pub start_of : (now : ℕ) (is_public : Bool) → Option ℕ → Option ℕ
start_of now true none = some now
start_of now true (some t) = if ltb now t then some now else some t
start_of now false start = start

-- What `createSurvey` is called with.
unfoldable pub survey_data :
    (now : ℕ) (user_id : String) → NewSurvey → GroupStore → Result CreateError SurveyData
unfolding check_admin_permission questions_data
survey_data now user_id dto g = elim (check_admin_permission user_id dto.group_id false g) [
  | err e ↦ err (not_permitted e)
  | ok u ↦ do
    questions ← questions_data dto.questions
    ok (record {
      title = dto.title;
      description = dto.description;
      group_id = dto.group_id;
      is_public = get_or dto.is_public false;
      allow_abstain = get_or dto.allow_abstain true;
      start_at = start_of now (get_or dto.is_public false) dto.start_at;
      end_at = dto.end_at;
      questions = questions;
    })
]
