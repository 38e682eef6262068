-- ===== src/Survey/Create/Tests.antt =====
-- A scale from -1 to 4 in steps of 2, and a survey with it
-- (backend/src/surveys/surveys.service.ts, create).
use voting_secure.Base.{◌+◌, ◌/◌, suc, true, none, some, [], ◌∷◌, ◌≡◌, refl, ok, err, arith}
use voting_secure.Base.Int.{pos, negsuc, ◌+ℤ◌}
use voting_secure.Survey.Types.{QuestionType}
use voting_secure.Survey.Create.{
  ScaleConfig, NewQuestion, scale_loop, distance, question_data, scale_not_ordered,
}
use voting_secure.Survey.Create.Scale.{ticks, scale_loop-ticks}

abbrev two_apart : ScaleConfig
two_apart = record { scale_min = negsuc 0; scale_max = pos 4; step = some 2 }

abbrev how_good : NewQuestion
how_good = record {
  text = "How good?";
  type = QuestionType.scale;
  is_required = none;
  order = none;
  choice_config = none;
  scale_config = some two_apart;
  options = none;
}

scale_runs :
    question_data how_good
    ≡ ok (record {
      text = "How good?";
      type = QuestionType.scale;
      is_required = true;
      order = 0;
      choice_config = none;
      scale_config = some two_apart;
      options =
          record { text = "-1"; order = some (negsuc 0) }
          ∷ record { text = "1"; order = some (pos 1) }
          ∷ record { text = "3"; order = some (pos 3) }
          ∷ [];
    })
unfolding question_data ◌+ℤ◌
scale_runs = refl

reversed_runs :
    question_data
      (record how_good { scale_config = some (record two_apart { scale_max = negsuc 0 }) })
    ≡ err (scale_not_ordered "How good?")
unfolding question_data
reversed_runs = refl

scale_loop-ticks_example :
    scale_loop (suc (suc (distance (negsuc 0) (pos 4))) + 3) (negsuc 0) (pos 4) 2
    ≡ ticks (suc (distance (negsuc 0) (pos 4) / 2)) (negsuc 0) 2
scale_loop-ticks_example = scale_loop-ticks 3 (negsuc 0) (pos 4) 2 (omega arith) refl
