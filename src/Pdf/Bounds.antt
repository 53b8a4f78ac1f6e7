-- ===== src/Pdf/Bounds.antt =====
-- The bounds of the page and the zoom:
-- frontend/src/components/custom/pdf-document-viewer.vue.
use smart_copilot.Common.{
  ℕ, ◌+◌, ◌-◌, ◌≤◌, max, ◌≡◌, refl, Bool, true, false, ◌||◌, Option, none, some, List, [], ◌∷◌,
  if◌then◌else◌, leb, eqb, arith,
}
use smart_copilot.Pdf.{
  View, Action, go, previous, next, page_prop, zoomed_in, zoomed_out, fit, opening, opened, act,
  act_all, clamp_page, or_number, go_to_page, go_prev_page, go_next_page, page_number_changed,
  zoom_in, zoom_out, loaded_document, target_page_number, min_zoom, max_zoom,
}

abbrev pub InView : View → Type 0
InView v =
    ((1 ≤ v.current_page) × (v.current_page ≤ max v.total_pages 1))
    × ((min_zoom ≤ v.zoom) × (v.zoom ≤ max_zoom))

clamp_page-in :
    (page max_page n : ℕ)
    → max max_page 1 ≡ n
    → (1 ≤ clamp_page page max_page) × (clamp_page page max_page ≤ n)
unfolding clamp_page
clamp_page-in page max_page n h = (omega arith, omega (arith, h))

max-or_number : (total : ℕ) → max (or_number (some total) 1) 1 ≡ max total 1
max-or_number total = ground arith

abbrev PageIn : View → Type 0
PageIn v = (1 ≤ v.current_page) × (v.current_page ≤ max v.total_pages 1)

go_to_page-in : (page : ℕ) (v : View) → PageIn (go_to_page page v)
unfolding go_to_page
go_to_page-in page v =
    clamp_page-in page (or_number (some v.total_pages) 1) (max v.total_pages 1)
      (max-or_number v.total_pages)

if-in : (b : Bool) (v w : View) → PageIn v → PageIn w → PageIn (if b then v else w)
if-in true v w h g = h
if-in false v w h g = g

clamp_or_one :
    (n total : ℕ) (b : Bool) (c : ℕ) (z : ℕ)
    → PageIn (record { total_pages = total; current_page = c; zoom = z })
    → PageIn (
        if b
        then record { total_pages = total; current_page = c; zoom = z }
        else record { total_pages = total; current_page = clamp_page n total; zoom = z })
clamp_or_one n total true c z h = h
clamp_or_one n total false c z h = clamp_page-in n total (max total 1) refl

page_number_changed-in : (n : Option ℕ) (v : View) → PageIn v → PageIn (page_number_changed n v)
unfolding page_number_changed
page_number_changed-in none v h = h
page_number_changed-in (some n) v h =
    clamp_or_one n v.total_pages (eqb n 0 || eqb v.total_pages 0) v.current_page v.zoom h

act-page : (a : Action) (v : View) → PageIn v → PageIn (act a v)
unfolding act go_prev_page go_next_page zoom_in zoom_out loaded_document target_page_number
act-page (go page) v h = go_to_page-in page v
act-page previous v h = if-in (leb v.current_page 1) v _ h (go_to_page-in (v.current_page - 1) v)
act-page next v h =
    if-in (leb v.total_pages v.current_page) v _ h (go_to_page-in (v.current_page + 1) v)
act-page (page_prop n) v h = page_number_changed-in n v h
act-page zoomed_in v h = h
act-page zoomed_out v h = h
act-page fit v h = h
act-page opening v h = (omega arith, omega arith)
act-page (opened props n) v h =
    clamp_page-in (or_number props.page_number 1) (or_number (some n) 1) (max n 1) (max-or_number n)

abbrev ZoomIn : View → Type 0
ZoomIn v = (min_zoom ≤ v.zoom) × (v.zoom ≤ max_zoom)

if-zoom : (b : Bool) (v w : View) → ZoomIn v → ZoomIn w → ZoomIn (if b then v else w)
if-zoom true v w h g = h
if-zoom false v w h g = g

act-zoom : (a : Action) (v : View) → ZoomIn v → ZoomIn (act a v)
unfolding act go_to_page go_prev_page go_next_page page_number_changed zoom_in zoom_out
    loaded_document
act-zoom (go page) v h = h
act-zoom previous v h = if-zoom (leb v.current_page 1) v _ h h
act-zoom next v h = if-zoom (leb v.total_pages v.current_page) v _ h h
act-zoom (page_prop none) v h = h
act-zoom (page_prop (some n)) v h = if-zoom (eqb n 0 || eqb v.total_pages 0) v _ h h
act-zoom zoomed_in v h = (omega (arith, h.0), omega arith)
act-zoom zoomed_out v h = (omega arith, omega (arith, h.1))
act-zoom fit v h = (omega arith, omega arith)
act-zoom opening v h = h
act-zoom (opened props n) v h = h

-- From a view whose page and zoom are in bounds, every list of actions leads to such a view: the page
-- is between 1 and the number of pages, or 1, and the zoom between 70 and 220 hundredths.
pub act_all-InView : (actions : List Action) (v : View) → InView v → InView (act_all actions v)
unfolding act_all
act_all-InView [] v h = h
act_all-InView (a ∷ actions) v (h, g) =
    act_all-InView actions (act a v) (act-page a v h, act-zoom a v g)
