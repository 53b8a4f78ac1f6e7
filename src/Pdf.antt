-- ===== src/Pdf.antt =====
-- The pages, the zoom and the toolbar of frontend/src/components/custom/pdf-document-viewer.vue.
pub mod Bounds
pub mod Dice
pub mod Shift
pub mod Summaries
pub mod Drain
pub mod Renders
pub mod Match
pub mod Merged
pub mod Bigrams
use Prim.Native.String
use smart_copilot.Common.{
  ℕ, suc, String, ◌+◌, ◌-◌, ◌≤◌, min, max, ◌≡◌, refl, ap, Bool, true, false, not, ◌&&◌, ◌||◌,
  Option, none, some, List, [], ◌∷◌, if◌then◌else◌, truthy, ltb, leb, eqb, arith, get_or, includes,
}
use smart_copilot.Common.Texts.{show}

unfoldable pub clamp_page : ℕ → ℕ → ℕ
clamp_page page max_page = min (max page 1) (max max_page 1)

-- A missing number of a page, and 0, are left to the default: `n || d`.
abbrev pub or_number : Option ℕ → ℕ → ℕ
or_number none d = d
or_number (some n) d = if eqb n 0 then d else n

pub record Props : Type 0 where
  pub url : String
  pub source_url : Option String
  pub page_number : Option ℕ
  pub single_page_mode : Bool
  pub source_page_number : Option ℕ

-- `zoom` is in hundredths: both steps round to two decimals.
pub record View : Type 0 where
  pub total_pages : ℕ
  pub current_page : ℕ
  pub zoom : ℕ

abbrev pub min_zoom : ℕ
min_zoom = 70

abbrev pub max_zoom : ℕ
max_zoom = 220

unfoldable pub target_page_number : Props → View → ℕ
unfolding clamp_page
target_page_number props v =
    clamp_page (or_number props.page_number 1) (or_number (some v.total_pages) 1)

abbrev is_page : Option ℕ → Bool
is_page none = false
is_page (some n) = not (eqb n 0)

abbrev pub single_page_preview_active : Props → Bool
single_page_preview_active props = props.single_page_mode && is_page props.source_page_number

abbrev or_option : Option ℕ → Option ℕ → Option ℕ
or_option o p = if is_page o then o else p

unfoldable pub display_current_page : Props → View → ℕ
display_current_page props v =
    if single_page_preview_active props
    then or_number props.source_page_number (or_number props.page_number 1)
    else v.current_page

unfoldable pub display_page_number : Props → ℕ → ℕ
display_page_number props page_number =
    if single_page_preview_active props
    then or_number props.source_page_number (or_number props.page_number page_number)
    else page_number

unfoldable pub go_to_page : ℕ → View → View
unfolding clamp_page
go_to_page page v = record v { current_page = clamp_page page (or_number (some v.total_pages) 1) }

unfoldable pub go_prev_page : View → View
unfolding go_to_page
go_prev_page v = if leb v.current_page 1 then v else go_to_page (v.current_page - 1) v

unfoldable pub go_next_page : View → View
unfolding go_to_page
go_next_page v = if leb v.total_pages v.current_page then v else go_to_page (v.current_page + 1) v

-- The watch on `props.pageNumber`
unfoldable pub page_number_changed : Option ℕ → View → View
unfolding clamp_page
page_number_changed none v = v
page_number_changed (some n) v =
    if eqb n 0 || eqb v.total_pages 0
    then v
    else record v { current_page = clamp_page n v.total_pages }

unfoldable pub zoom_in : View → View
zoom_in v = record v { zoom = min (v.zoom + 10) max_zoom }

unfoldable pub zoom_out : View → View
zoom_out v = record v { zoom = max (v.zoom - 10) min_zoom }

abbrev pub reset_zoom : View → View
reset_zoom v = record v { zoom = 100 }

-- `loadDocument`: before the document is there, and when it is.
abbrev pub loading_document : View → View
loading_document v = record v { total_pages = 0; current_page = 1 }

unfoldable pub loaded_document : Props → ℕ → View → View
unfolding target_page_number
loaded_document props num_pages v =
    let sized = record v { total_pages = num_pages } in
    record sized { current_page = target_page_number props sized }

-- The address that a new window gets, if there is one.
abbrev or_text : Option String → String → String
or_text none d = d
or_text (some s) d = if truthy s then s else d

unfoldable pub open_in_new_tab : Props → View → Option String
unfolding display_current_page
open_in_new_tab props v =
    let target_url = or_text props.source_url props.url in
    if truthy target_url
    then some (String.◌++◌ target_url (String.◌++◌ "#page=" (show (display_current_page props v))))
    else none

pub data Action : Type 0 where
  go : ℕ → Action
  previous : Action
  next : Action
  page_prop : Option ℕ → Action
  zoomed_in : Action
  zoomed_out : Action
  fit : Action
  opening : Action
  opened : Props → ℕ → Action

unfoldable pub act : Action → View → View
unfolding go_to_page go_prev_page go_next_page page_number_changed zoom_in zoom_out loaded_document
act (go page) v = go_to_page page v
act previous v = go_prev_page v
act next v = go_next_page v
act (page_prop n) v = page_number_changed n v
act zoomed_in v = zoom_in v
act zoomed_out v = zoom_out v
act fit v = reset_zoom v
act opening v = loading_document v
act (opened props n) v = loaded_document props n v

unfoldable pub act_all : List Action → View → View
unfolding act
act_all [] v = v
act_all (a ∷ as') v = act_all as' (act a v)

-- The first state of the component
abbrev pub first_view : View
first_view = record { total_pages = 0; current_page = 1; zoom = 100 }
