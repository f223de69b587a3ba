-- ===== src/Schedules/Ids.antt =====
-- The ids of schedules, written and read.
use text.Mathlib.TextLemmas.{nil-append, cons-append}
use b2b_app.Prelude.{◌≡◌, refl, ap, ◌∙◌, String, false, some, [], ◌∷◌}
use b2b_app.Prelude.Texts.{
  ◌+++◌, after_prefix-append, split, split_from-append, split_from_last, has_char,
}
use b2b_app.Schedules.{schedule_prefix, schedule_id_for, three_parts, parse_rest, parse_schedule_id}

colon-append : (s : String) → ":" +++ s ≡ String.◌∷◌ ":" s
colon-append s = cons-append ":" String.[] s ∙ ap (String.◌∷◌ ":") (nil-append s)

split_piece :
    (piece rest : String)
    → has_char b':' piece ≡ false
    → split b':' (piece +++ (":" +++ rest)) ≡ piece ∷ split b':' rest
split_piece piece rest h =
    ap (λ x. split b':' (piece +++ x)) (colon-append rest)
    ∙ split_from-append b':' "" piece rest ":" h refl
    ∙ ap (λ x. x ∷ split b':' rest) (nil-append piece)

-- Where neither the organization's id nor the workflow's nor the key holds a colon, an id is read
-- back into the three that it was made of.
pub parse_schedule_id-schedule_id_for :
    (org workflow key : String)
    → has_char b':' org ≡ false
    → has_char b':' workflow ≡ false
    → has_char b':' key ≡ false
    → parse_schedule_id (schedule_id_for org workflow key)
      ≡ some (record {
        organization_id = org;
        workflow_id = workflow;
        trigger_key = key;
        cron = "";
        timezone = "";
      })
unfolding parse_schedule_id schedule_id_for parse_rest three_parts
parse_schedule_id-schedule_id_for org workflow key no_org no_workflow no_key =
    ap parse_rest
      (after_prefix-append schedule_prefix (org +++ (":" +++ (workflow +++ (":" +++ key)))))
    ∙ ap three_parts (
        split_piece org (workflow +++ (":" +++ key)) no_org
        ∙ ap (λ x. org ∷ x)
            (split_piece workflow key no_workflow
              ∙ ap (λ x. workflow ∷ x)
                  (split_from_last b':' "" key no_key ∙ ap (λ x. x ∷ []) (nil-append key))))
