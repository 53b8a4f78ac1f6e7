-- ===== src/Files/Races.antt =====
-- Two deletions whose requests wait at the same time: `handleDelete` of
-- frontend/src/views/knowledge-base/index.vue keeps a position over its request.
use smart_copilot.Common.{
  ℕ, zero, suc, ◌≤◌, ◌<◌, String, ◌≡◌, refl, ap, sym, ◌∙◌, Bool, true, false, not, Option, none,
  some, List, [], ◌∷◌, ◌==◌, if◌then◌else◌, find_idx?, includes, distinct, erase_idx, arith, eq_iff,
  get_elem?, includes-filter,
}
use smart_copilot.Files.{Row, md5_of, is_md5}
use smart_copilot.Files.Deletes.{
  Deleting, asked, delete_at, handle_delete, delete_answered, others, md5s, has_no_chunks,
  filter_absent, includes-eq,
}

-- The digests behind a deletion of the row with a digest, if there is one.
abbrev pub without : Option String → List String → List String
without none ms = ms
without (some md5) ms = others md5 ms

asked_by :
    (b : Bool) (rows : List Row) (i k : ℕ)
    → (if b then Deleting.deleted rows else asked k) ≡ asked i
    → k ≡ i
asked_by b rows i k h = ground arith

asked_at : (tasks : List Row) (o : Option ℕ) (i : ℕ) → delete_at o tasks ≡ asked i → o ≡ some i
asked_at tasks none i h = cc
asked_at tasks (some k) i h =
    ap some (asked_by (has_no_chunks (get_elem? tasks k)) (erase_idx tasks k) i k h)

-- The digest at the position that a deletion keeps.
at_found :
    (md5 : String) (tasks : List Row) (i : ℕ)
    → find_idx? (is_md5 md5) tasks ≡ some i
    → get_elem? (md5s tasks) i ≡ some md5
at_found md5 [] i e = cc
at_found md5 (row ∷ tasks) zero e = ground (arith, eq_iff (md5_of row) md5)
at_found md5 (row ∷ tasks) (suc i) e = ground (arith, at_found md5 tasks i)

asked_for :
    (md5 : String) (tasks : List Row) (i : ℕ)
    → handle_delete md5 tasks ≡ asked i
    → get_elem? (md5s tasks) i ≡ some md5
unfolding handle_delete
asked_for md5 tasks i h = at_found md5 tasks i (asked_at tasks (find_idx? (is_md5 md5) tasks) i h)

md5s-erase_idx : (tasks : List Row) (i : ℕ) → md5s (erase_idx tasks i) ≡ erase_idx (md5s tasks) i
md5s-erase_idx [] i = refl
md5s-erase_idx (row ∷ tasks) zero = refl
md5s-erase_idx (row ∷ tasks) (suc i) = ap (◌∷◌ (md5_of row)) (md5s-erase_idx tasks i)

get_elem-later :
    (ms : List String) (i j : ℕ) → i ≤ j → get_elem? (erase_idx ms i) j ≡ get_elem? ms (suc j)
get_elem-later [] i j h = refl
get_elem-later (m ∷ ms) zero j h = refl
get_elem-later (m ∷ ms) (suc i) zero h = absurd (omega (arith, h))
get_elem-later (m ∷ ms) (suc i) (suc j) h = get_elem-later ms i j (omega (arith, h))

included_at :
    (ms : List String) (i : ℕ) (md5 : String) → get_elem? ms i ≡ some md5 → includes ms md5 ≡ true
included_at [] i md5 h = cc
included_at (m ∷ ms) zero md5 h = ground (arith, eq_iff m md5)
included_at (m ∷ ms) (suc i) md5 h = ground (arith, included_at ms i md5)

different_at :
    (ms : List String) (i j : ℕ) (a b : String)
    → distinct ms ≡ true
    → get_elem? ms i ≡ some a
    → get_elem? ms j ≡ some b
    → i < j
    → (b == a) ≡ false
different_at [] i j a b d h k l = cc
different_at (m ∷ ms) i zero a b d h k l = absurd (omega (arith, l))
different_at (m ∷ ms) zero (suc j) a b d h k l =
    ground (arith, included_at ms j b, includes-eq b m ms)
different_at (m ∷ ms) (suc i) (suc j) a b d h k l =
    different_at ms i j a b (ground arith) h k (omega (arith, l))

keeps_head :
    (m : String) (ms : List String) (o : Option String)
    → ((x : String) → o ≡ some x → (m == x) ≡ false)
    → without o (m ∷ ms) ≡ m ∷ without o ms
keeps_head m ms none h = refl
keeps_head m ms (some x) h = ground (arith, h x refl)

eq_sym-false : (a b : String) → (a == b) ≡ false → (b == a) ≡ false
eq_sym-false a b h = ground (arith, eq_iff a b, eq_iff b a)

erase-without :
    (ms : List String) (i : ℕ) → distinct ms ≡ true → erase_idx ms i ≡ without (get_elem? ms i) ms
erase-without [] i d = refl
erase-without (m ∷ ms) zero d = ground (arith, eq_iff m m, filter_absent m ms)
erase-without (m ∷ ms) (suc i) d =
    ap (◌∷◌ m) (erase-without ms i (ground arith))
    ∙ sym (
        keeps_head m ms (get_elem? ms i)
          (λ x e. eq_sym-false x m (different_at (m ∷ ms) zero (suc i) m x d refl e (omega arith))))

distinct-others :
    (md5 : String) (ms : List String) → distinct ms ≡ true → distinct (others md5 ms) ≡ true
distinct-others md5 [] d = refl
distinct-others md5 (m ∷ ms) d =
    ground (arith, distinct-others md5 ms, includes-filter (λ x. not (x == md5)) ms m)

includes-without :
    (o : Option String) (ms : List String) (x : String)
    → includes ms x ≡ true
    → ((m : String) → o ≡ some m → (x == m) ≡ false)
    → includes (without o ms) x ≡ true
includes-without none ms x h k = h
includes-without (some m) ms x h k =
    ground (arith, includes-filter (λ y. not (y == m)) ms x, k m refl)

-- Where no two tasks are for one file, and two deletions wait, whose answers come in the order of
-- their tasks: the first removes its own task, and the second the task behind its own, if there is
-- one; its own stays.
pub delete_answered-handle_delete :
    (first second : String) (i j : ℕ) (tasks : List Row)
    → distinct (md5s tasks) ≡ true
    → handle_delete first tasks ≡ asked i
    → handle_delete second tasks ≡ asked j
    → i < j
    → let left = md5s (delete_answered false j (delete_answered false i tasks)) in
      (left ≡ without (get_elem? (md5s tasks) (suc j)) (others first (md5s tasks)))
      × (includes left second ≡ true)
delete_answered-handle_delete first second i j tasks d h k l =
    let ms = md5s tasks in
    let at_i = asked_for first tasks i h in
    let at_j = asked_for second tasks j k in
    let once : md5s (erase_idx tasks i) ≡ others first ms =
      md5s-erase_idx tasks i ∙ erase-without ms i d ∙ ap (λ o. without o ms) at_i in
    let behind : get_elem? (others first ms) j ≡ get_elem? ms (suc j) =
      ap (λ l'. get_elem? l' j) (sym once ∙ md5s-erase_idx tasks i)
      ∙ get_elem-later ms i j (omega (arith, l)) in
    let twice : md5s (erase_idx (erase_idx tasks i) j)
        ≡ without (get_elem? ms (suc j)) (others first ms) =
      md5s-erase_idx (erase_idx tasks i) j
      ∙ ap (λ l'. erase_idx l' j) once
      ∙ erase-without (others first ms) j (distinct-others first ms d)
      ∙ ap (λ o. without o (others first ms)) behind in
    (
      twice,
      ap (λ l'. includes l' second) twice
          ∙ includes-without (get_elem? ms (suc j)) (others first ms) second
              (includes-without (some first) ms second (included_at ms j second at_j)
                (λ m e. different_at ms i j m second d (at_i ∙ e) at_j l))
              (λ m e.
                eq_sym-false m second (different_at ms j (suc j) second m d at_j e (omega arith))),
    )
