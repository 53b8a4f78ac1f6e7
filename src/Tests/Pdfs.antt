-- ===== src/Tests/Pdfs.antt =====
-- A document of four pages and its texts.
use smart_copilot.Common.{
  ℕ, ◌≡◌, ◌≢◌, ◌≤◌, refl, true, false, none, some, List, [], ◌∷◌, arith, if◌then◌else◌, map,
}
use smart_copilot.Common.Units.{Units, units, slice}
use smart_copilot.Pdf.{Props, Action, go, next, previous, zoomed_in, opened, act_all, first_view}
use smart_copilot.Pdf.Bounds.{act_all-InView, InView}
use smart_copilot.Pdf.Summaries.{
  Summaries, Outcome, items, failed, has, document_loaded, flush_summary_queue,
}
use smart_copilot.Pdf.Drain.{flush_summary_queue-drains}
use smart_copilot.Pdf.Shift.{answers}
use smart_copilot.Pdf.Renders.{
  Renders, Event, scheduled, timer_fired, render_ended, frame_passed, run, run-settles,
}
use smart_copilot.Pdf.Match.{resolve_match_range, resolve_match_range-Matches, Matches}
use smart_copilot.Pdf.Merged.{merge_items, merge_items-slices, ItemRange}
use smart_copilot.Pdf.Bigrams.{calculate_dice_coefficient, no_counts, build_bigrams}
use smart_copilot.Pdf.Dice.{calculate_dice_coefficient-bounds}

abbrev props : Props
props = record {
  url = "/files/a.pdf";
  source_url = none;
  page_number = some 3;
  single_page_mode = false;
  source_page_number = none;
}

abbrev visit : List Action
visit = opened props 4 ∷ next ∷ next ∷ zoomed_in ∷ go 9 ∷ previous ∷ []

visited : act_all visit first_view ≡ record { total_pages = 4; current_page = 3; zoom = 110 }
unfolding act_all
visited = refl

act_all-InView_example : InView (act_all visit first_view)
act_all-InView_example =
    act_all-InView visit first_view ((omega arith, omega arith), (omega arith, omega arith))

abbrev no_document : Summaries
no_document = record {
  document = none;
  total_pages = 0;
  visible = true;
  page_summaries = [];
  queue = [];
  loaded = [];
  loading = [];
  loop = none;
  timer = false;
}

abbrev queued : Summaries
queued = record no_document {
  document = some 7;
  total_pages = 4;
  queue = 3 ∷ 2 ∷ 4 ∷ [];
  timer = true;
}

queue_at_load : (document_loaded 7 4 3 3 no_document).queue ≡ 3 ∷ 2 ∷ 4 ∷ []
unfolding document_loaded
queue_at_load = refl

abbrev outcomes : List Outcome
outcomes = failed ∷ items [] ∷ failed ∷ []

flush_summary_queue-drains_example :
    ((answers outcomes (flush_summary_queue 1 queued)).1 ≡ none)
    × (((answers outcomes (flush_summary_queue 1 queued)).0.queue ≡ [])
        × ((n : ℕ)
            → has queued.queue n ≡ true
            → n ≢ 0
            → has (answers outcomes (flush_summary_queue 1 queued)).0.loaded n ≡ true))
flush_summary_queue-drains_example =
    flush_summary_queue-drains 1 7 outcomes queued refl refl refl refl (omega arith)

abbrev page_text : Units
page_text = units "the cat sat on the mat"

abbrev anchors : List Units
anchors = units "a dog" ∷ units "on the mat" ∷ []

match_found : resolve_match_range page_text anchors ≡ some (12, 22)
unfolding resolve_match_range units
match_found = refl

resolve_match_range-Matches_example : Matches page_text anchors (12, 22)
unfolding resolve_match_range units
resolve_match_range-Matches_example = resolve_match_range-Matches page_text anchors (12, 22) refl

abbrev keep : Units → Units
keep us = us

abbrev texts : List Units
texts = units "the" ∷ [] ∷ units "cat" ∷ []

merge_items-slices_example :
    map
      (λ (r : ItemRange). slice r.start r.end (merge_items keep (32 ∷ []) 0 [] texts).1)
      (merge_items keep (32 ∷ []) 0 [] texts).0
    ≡ units "the" ∷ units "cat" ∷ []
unfolding units
merge_items-slices_example = merge_items-slices keep (32 ∷ []) 0 [] texts

calculate_dice_coefficient-bounds_example :
    ((calculate_dice_coefficient page_text (units "the mat")).0
      ≤ (calculate_dice_coefficient page_text (units "the mat")).1)
    × ((calculate_dice_coefficient page_text page_text).0 ≡ (
        if no_counts (build_bigrams page_text)
        then 0
        else (calculate_dice_coefficient page_text page_text).1))
calculate_dice_coefficient-bounds_example =
    calculate_dice_coefficient-bounds page_text (units "the mat")

abbrev drawn : Renders
drawn = record {
  has_document = true;
  document_loading = false;
  visible = true;
  lifecycle_token = 1;
  queued_version = 1;
  active_version = 1;
  active = none;
  rerender = false;
  timer = none;
  frames = 0;
  page_rendering = false;
}

-- Two requests while a drawing goes on, and another one after it.
abbrev drawings : List Event
drawings =
    scheduled ∷ timer_fired ∷ scheduled ∷ timer_fired ∷ render_ended ∷ scheduled ∷ timer_fired
    ∷ frame_passed ∷ render_ended ∷ frame_passed ∷ render_ended ∷ []

run-settles_example :
    ((run drawings drawn).active_version ≡ (run drawings drawn).queued_version)
    × ((run drawings drawn).page_rendering ≡ false)
unfolding run
run-settles_example = run-settles drawings drawn refl refl

latest_drawn : (run drawings drawn).active_version ≡ 4
unfolding run
latest_drawn = refl
