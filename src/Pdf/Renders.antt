-- ===== src/Pdf/Renders.antt =====
-- The queue of drawings of a page: `scheduleRender`, `forceRender` and `flushRenderQueue` of
-- frontend/src/components/custom/pdf-document-viewer.vue, while one document stays.
use smart_copilot.Common.{
  ℕ, zero, suc, ◌+◌, ◌≡◌, ◌≤◌, refl, ap, sym, ◌∙◌, Bool, true, false, not, ◌&&◌, ◌||◌, Option, none,
  some, List, [], ◌∷◌, if◌then◌else◌, ltb, leb, eqb, eqb_iff, eqb_refl, is_some, arith,
}

-- `active` is the expected token of the drawing that goes on, `timer` the version of the timer, and
-- `frames` the number of drawings that wait for a frame.
pub record Renders : Type 0 where
  pub has_document : Bool
  pub document_loading : Bool
  pub visible : Bool
  pub lifecycle_token : ℕ
  pub queued_version : ℕ
  pub active_version : ℕ
  pub active : Option ℕ
  pub rerender : Bool
  pub timer : Option ℕ
  pub frames : ℕ
  pub page_rendering : Bool

abbrev pub can_render : Renders → Bool
can_render s = s.has_document && not s.document_loading && s.visible

-- Whether the end of a drawing leads to another one.
abbrev is_due : ℕ → Renders → Bool
is_due token s = s.rerender || ltb s.active_version s.queued_version && eqb token s.lifecycle_token

unfoldable pub schedule_render : Renders → Renders
schedule_render s =
    if can_render s
    then record s { queued_version = s.queued_version + 1; timer = some (s.queued_version + 1) }
    else s

-- `flushRenderQueue` up to its await.
unfoldable pub flush_render_queue : ℕ → ℕ → Renders → Renders
flush_render_queue version expected s =
    if not (can_render s) || not (eqb expected s.lifecycle_token)
    then s
    else if is_some s.active
    then record s { rerender = true }
    else record s { active_version = version; page_rendering = true; active = some expected }

unfoldable pub force_render : Renders → Renders
unfolding flush_render_queue
force_render s =
    flush_render_queue (s.queued_version + 1) s.lifecycle_token
      (record s { queued_version = s.queued_version + 1 })

abbrev fire : Option ℕ → Renders → Renders
fire none s = s
fire (some version) s = flush_render_queue version s.lifecycle_token (record s { timer = none })

-- The end of the drawing, `finally` and its wait for a frame included.
abbrev end_render : Option ℕ → Renders → Renders
end_render none s = s
end_render (some token) s =
    let ended = record s { active = none; rerender = false } in
    if is_due token s && s.has_document && not s.document_loading
    then record ended { frames = s.frames + 1 }
    else if eqb token s.lifecycle_token
    then record ended { page_rendering = false }
    else ended

abbrev pass_frame : ℕ → Renders → Renders
pass_frame zero s = s
pass_frame (suc n) s =
    flush_render_queue s.queued_version s.lifecycle_token (record s { frames = n })

pub data Event : Type 0 where
  scheduled : Event
  forced : Event
  timer_fired : Event
  render_ended : Event
  frame_passed : Event

-- An event that cannot happen in a state leaves it.
unfoldable pub step : Event → Renders → Renders
unfolding schedule_render force_render flush_render_queue
step scheduled s = schedule_render s
step forced s = force_render s
step timer_fired s = fire s.timer s
step render_ended s = end_render s.active s
step frame_passed s = pass_frame s.frames s

unfoldable pub run : List Event → Renders → Renders
unfolding step
run [] s = s
run (e ∷ es) s = run es (step e s)

-- Nothing goes on and nothing waits.
abbrev pub is_settled : Renders → Bool
is_settled s = not (is_some s.active) && not (is_some s.timer) && eqb s.frames 0

abbrev owns : ℕ → Option ℕ → Bool
owns token none = true
owns token (some t) = eqb t token

abbrev is_old : ℕ → Option ℕ → Bool
is_old queued none = true
is_old queued (some v) = leb v queued

-- What every event keeps.
abbrev pub inv : Renders → Bool
inv s =
    can_render s
    && (owns s.lifecycle_token s.active
        && (leb s.active_version s.queued_version
            && (is_old s.queued_version s.timer
                && ((is_some s.active
                      || not (eqb s.frames 0)
                      || is_some s.timer
                      || eqb s.active_version s.queued_version)
                    && (is_some s.active || not (eqb s.frames 0) || not s.page_rendering)))))

flush-inv :
    (version : ℕ) (s : Renders)
    → version ≤ s.queued_version
    → can_render s ≡ true
    → owns s.lifecycle_token s.active ≡ true
    → leb s.active_version s.queued_version ≡ true
    → is_old s.queued_version s.timer ≡ true
    → inv (flush_render_queue version s.lifecycle_token s) ≡ true
unfolding flush_render_queue
flush-inv version s v c o l t = ground (arith, eqb_refl s.lifecycle_token)

old_later : (q : ℕ) (o : Option ℕ) → is_old q o ≡ true → is_old (q + 1) o ≡ true
old_later q none h = refl
old_later q (some v) h = ground arith

settled :
    (s : Renders)
    → inv s ≡ true
    → is_settled s ≡ true
    → (s.active_version ≡ s.queued_version) × (s.page_rendering ≡ false)
settled s h g = (ground (arith, eqb_iff s.active_version s.queued_version), ground arith)

schedule-inv : (s : Renders) → inv s ≡ true → inv (schedule_render s) ≡ true
unfolding schedule_render
schedule-inv s h = ground arith

force-inv : (s : Renders) → inv s ≡ true → inv (force_render s) ≡ true
unfolding force_render
force-inv s h =
    flush-inv (s.queued_version + 1) (record s { queued_version = s.queued_version + 1 })
      (omega arith) (ground arith) (ground arith) (ground arith)
      (old_later s.queued_version s.timer (ground arith))

old_at : (q v : ℕ) (o : Option ℕ) → o ≡ some v → is_old q o ≡ true → v ≤ q
old_at q v o e h = ground (arith, sym (ap (is_old q) e) ∙ h)

fire_by : (o : Option ℕ) (s : Renders) → s.timer ≡ o → inv s ≡ true → inv (fire o s) ≡ true
fire_by none s e h = h
fire_by (some v) s e h =
    flush-inv v (record s { timer = none }) (old_at s.queued_version v s.timer e (ground arith))
      (ground arith) (ground arith) (ground arith) refl

fire-inv : (s : Renders) → inv s ≡ true → inv (fire s.timer s) ≡ true
fire-inv s h = fire_by s.timer s refl h

ended :
    (t : ℕ) (s : Renders)
    → eqb t s.lifecycle_token ≡ true
    → can_render s ≡ true
    → leb s.active_version s.queued_version ≡ true
    → is_old s.queued_version s.timer ≡ true
    → inv (end_render (some t) s) ≡ true
ended t s g c l o = ground arith

owned : (t u : ℕ) (o : Option ℕ) → o ≡ some u → owns t o ≡ true → eqb u t ≡ true
owned t u o e h = sym (ap (owns t) e) ∙ h

end_by : (o : Option ℕ) (s : Renders) → s.active ≡ o → inv s ≡ true → inv (end_render o s) ≡ true
end_by none s e h = h
end_by (some t) s e h =
    ended t s (owned s.lifecycle_token t s.active e (ground arith)) (ground arith) (ground arith)
      (ground arith)

end-inv : (s : Renders) → inv s ≡ true → inv (end_render s.active s) ≡ true
end-inv s h = end_by s.active s refl h

frame_by : (n : ℕ) (s : Renders) → s.frames ≡ n → inv s ≡ true → inv (pass_frame n s) ≡ true
frame_by zero s e h = h
frame_by (suc n) s e h =
    flush-inv s.queued_version (record s { frames = n }) (omega arith) (ground arith) (ground arith)
      (ground arith) (ground arith)

frame-inv : (s : Renders) → inv s ≡ true → inv (pass_frame s.frames s) ≡ true
frame-inv s h = frame_by s.frames s refl h

step-inv : (e : Event) (s : Renders) → inv s ≡ true → inv (step e s) ≡ true
unfolding step
step-inv scheduled s h = schedule-inv s h
step-inv forced s h = force-inv s h
step-inv timer_fired s h = fire-inv s h
step-inv render_ended s h = end-inv s h
step-inv frame_passed s h = frame-inv s h

run-inv : (es : List Event) (s : Renders) → inv s ≡ true → inv (run es s) ≡ true
unfolding run
run-inv [] s h = h
run-inv (e ∷ es) s h = run-inv es (step e s) (step-inv e s h)

-- Where a document is there, loaded and visible, and the invariant holds: when after any events nothing
-- goes on and nothing waits, the last drawing that was started is of the latest version that was asked
-- for, and the mask over the page is off.
pub run-settles :
    (es : List Event) (s : Renders)
    → inv s ≡ true
    → is_settled (run es s) ≡ true
    → ((run es s).active_version ≡ (run es s).queued_version) × ((run es s).page_rendering ≡ false)
run-settles es s h g = settled (run es s) (run-inv es s h) g
