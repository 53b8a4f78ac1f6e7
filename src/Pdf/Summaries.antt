-- ===== src/Pdf/Summaries.antt =====
-- The queue of page summaries of frontend/src/components/custom/pdf-document-viewer.vue.
use Prim.Native.String
use smart_copilot.Common.{
  ℕ, zero, suc, ◌+◌, ◌-◌, Bool, true, false, not, ◌&&◌, ◌||◌, Option, none, some, List, [], ◌∷◌,
  ◌++◌, if◌then◌else◌, leb, eqb, filter,
}
use smart_copilot.Common.Texts.{show}
use smart_copilot.Common.Units.{Units, units, collapse, trim, join, slice, is_empty}

pub record PageSummary : Type 0 where
  pub page_number : ℕ
  pub summary : Units

-- `pages.has(n)` and `pages.includes(n)`
abbrev pub has : List ℕ → ℕ → Bool
has [] n = false
has (m ∷ ms) n = eqb m n || has ms n

-- `document` and the loops are known by numbers; `loop` is the one of `activeSummaryPromise`. The
-- sets and the queue hold numbers of pages.
pub record Summaries : Type 0 where
  pub document : Option ℕ
  pub total_pages : ℕ
  pub visible : Bool
  pub page_summaries : List (Option PageSummary)
  pub queue : List ℕ
  pub loaded : List ℕ
  pub loading : List ℕ
  pub loop : Option ℕ
  pub timer : Bool

-- `xs[i] = a`, which fills up what is missing before it.
abbrev pub put_at {ℓ} : {A : Type ℓ} → ℕ → A → List (Option A) → List (Option A)
put_at zero a [] = some a ∷ []
put_at zero a (x ∷ xs) = some a ∷ xs
put_at (suc i) a [] = none ∷ put_at i a []
put_at (suc i) a (x ∷ xs) = x ∷ put_at i a xs

unfoldable pub build_fallback_summary : ℕ → Units
unfolding units
build_fallback_summary page_number = units (String.◌++◌ "第 " (String.◌++◌ (show page_number) " 页"))

abbrev space : Units
space = 32 ∷ []

-- Of the items that have a text.
unfoldable pub build_summary_from_items : List Units → Units
unfolding collapse trim
build_summary_from_items items = slice 0 80 (trim (collapse (join space items)))

abbrev or_units : Units → Units → Units
or_units us d = if is_empty us then d else us

abbrev pub put_summary : ℕ → Units → Summaries → Summaries
put_summary page_number summary s = record s {
  page_summaries =
      put_at (page_number - 1) (record { page_number = page_number; summary = summary })
        s.page_summaries;
  loaded = page_number ∷ s.loaded;
}

unfoldable pub update_page_summary : ℕ → List Units → Summaries → Summaries
unfolding build_summary_from_items build_fallback_summary
update_page_summary page_number items =
    put_summary page_number
      (or_units (build_summary_from_items items) (build_fallback_summary page_number))

-- The numbers of a set in the order of their insertion.
abbrev add : List ℕ → ℕ → List ℕ
add ns n = if has ns n then ns else ns ++ n ∷ []

-- With `eagerSummaryRadius` 1. A page before the first is 0 here, and is dropped like it.
unfoldable pub get_priority_summary_pages : ℕ → ℕ → ℕ → List ℕ
get_priority_summary_pages center_page target_page total_pages =
    filter (λ n. leb 1 n && leb n total_pages)
      (add (add (add (center_page ∷ []) target_page) (center_page - 1)) (center_page + 1))

-- The pages of a call that are neither loaded nor loading.
abbrev next_pages : List ℕ → Summaries → List ℕ
next_pages pages s = filter (λ n. not (has s.loaded n) && not (has s.loading n)) pages

-- `summaryQueue.push` of those that the queue did not have at first.
abbrev push_all : List ℕ → List ℕ → List ℕ
push_all next queue = queue ++ filter (λ n. not (has queue n)) next

abbrev enqueue : Bool → List ℕ → List ℕ → List ℕ
enqueue prioritize next queue =
    if prioritize then next ++ filter (λ n. not (has next n)) queue else push_all next queue

abbrev pub no_pages : List ℕ → Bool
no_pages [] = true
no_pages (n ∷ ns) = false

abbrev start_timer : Summaries → Summaries
start_timer s = record s { timer = true }

abbrev schedule_next : Bool → List ℕ → Summaries → Summaries
schedule_next prioritize next s =
    if no_pages next && no_pages s.queue
    then s
    else start_timer
        (record s { queue = if no_pages next then s.queue else enqueue prioritize next s.queue })

abbrev pub is_there : Option ℕ → Bool
is_there none = false
is_there (some d) = true

unfoldable pub schedule_summary_loading : Bool → List ℕ → Summaries → Summaries
schedule_summary_loading prioritize pages s =
    if not (is_there s.document)
    then s
    else if no_pages pages
    then start_timer s
    else schedule_next prioritize (next_pages pages s) s

-- What a loop waits for: its number, its document and the page.
pub record Waiting : Type 0 where
  pub of_loop : ℕ
  pub of_document : ℕ
  pub page : ℕ

abbrev pub is_number : Option ℕ → ℕ → Bool
is_number none n = false
is_number (some m) n = eqb m n

-- `finally` of `flushSummaryQueue`
unfoldable pub end_loop : ℕ → Summaries → Summaries
unfolding schedule_summary_loading
end_loop loop s =
    let ended = if is_number s.loop loop then record s { loop = none } else s in
    if no_pages ended.queue then ended else schedule_summary_loading false [] ended

-- The next page that is to be loaded, and the queue after it.
unfoldable pub shift_queue : List ℕ → List ℕ → List ℕ → Option (ℕ × List ℕ)
shift_queue loaded loading [] = none
shift_queue loaded loading (n ∷ queue) =
    let later = shift_queue loaded loading queue in
    if eqb n 0 || has loaded n || has loading n then later else some (n, queue)

abbrev pub advance_to : ℕ → ℕ → Option (ℕ × List ℕ) → Summaries → Summaries × Option Waiting
advance_to loop document none s = (end_loop loop (record s { queue = [] }), none)
advance_to loop document (some (page, queue)) s = (
  record s { queue = queue; loading = page ∷ s.loading },
  some (record { of_loop = loop; of_document = document; page = page }),
)

-- `loadQueuedSummaries` from the test of its loop to the next page, or to its end.
unfoldable pub advance : ℕ → ℕ → Summaries → Summaries × Option Waiting
unfolding end_loop shift_queue
advance loop document s =
    if is_number s.document document && s.visible
    then advance_to loop document (shift_queue s.loaded s.loading s.queue) s
    else (end_loop loop s, none)

abbrev pub flush_by : ℕ → Option ℕ → Summaries → Summaries × Option Waiting
flush_by loop none s = (s, none)
flush_by loop (some document) s = advance loop document (record s { loop = some loop })

-- The timer of a call, which starts a loop of this new number if none is going on.
unfoldable pub flush_summary_queue : ℕ → Summaries → Summaries × Option Waiting
unfolding advance
flush_summary_queue loop s =
    let fired = record s { timer = false } in
    if is_there s.loop || no_pages s.queue then (fired, none) else flush_by loop s.document fired

pub data Outcome : Type 0 where
  items : List Units → Outcome
  failed : Outcome

abbrev pub delete : ℕ → Summaries → Summaries
delete page s = record s { loading = filter (λ n. not (eqb n page)) s.loading }

abbrev pub put_outcome : ℕ → Outcome → Summaries → Summaries
put_outcome page (items texts) s = update_page_summary page texts s
put_outcome page failed s = put_summary page (build_fallback_summary page) s

abbrev pub is_failed : Outcome → Bool
is_failed (items texts) = false
is_failed failed = true

-- The page comes or fails. A loop whose document has gone ends, but for a failure, which is written
-- down in any case.
unfoldable pub answered : Waiting → Outcome → Summaries → Summaries × Option Waiting
unfolding advance update_page_summary build_fallback_summary
answered w outcome s =
    if is_failed outcome || is_number s.document w.of_document
    then advance w.of_loop w.of_document (delete w.page (put_outcome w.page outcome s))
    else (end_loop w.of_loop (delete w.page s), none)

-- `cleanupPdfState` and `loadDocument`, for the summaries.
abbrev pub cleanup_pdf_state : Summaries → Summaries
cleanup_pdf_state s = record s {
  document = none;
  queue = [];
  loaded = [];
  loading = [];
  loop = none;
  timer = false;
}

abbrev fallback_summaries : ℕ → ℕ → List (Option PageSummary)
fallback_summaries zero page = []
fallback_summaries (suc n) page =
    some (record { page_number = page; summary = build_fallback_summary page })
    ∷ fallback_summaries n (page + 1)

unfoldable pub document_loaded : ℕ → ℕ → ℕ → ℕ → Summaries → Summaries
unfolding get_priority_summary_pages schedule_summary_loading build_fallback_summary
document_loaded document num_pages current_page target_page s =
    schedule_summary_loading true (get_priority_summary_pages current_page target_page num_pages)
      (record s {
        document = some document;
        total_pages = num_pages;
        page_summaries = fallback_summaries num_pages 1;
        loaded = [];
        loading = [];
        queue = [];
      })
