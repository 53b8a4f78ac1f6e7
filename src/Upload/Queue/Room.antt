-- ===== src/Upload/Queue/Room.antt =====
-- The queue never runs more than three uploads, and no task waits while there is room.
use smart_copilot.Common.{
  ℕ, ◌+◌, ◌≤◌, ◌<◌, String, ◌≡◌, refl, ap, ◌∙◌, Bool, true, false, not, ◌||◌, Option, none, some,
  List, [], ◌∷◌, map, ◌==◌, if◌then◌else◌, find?, all, distinct-concat, leb→le, not-leb→lt,
  includes, distinct, leb, length, arith, eq_iff, Bool-cases, inl, inr, ◌⊎◌, length-append,
  includes-append,
}
use smart_copilot.Upload.Queue.{
  UploadStatus, uploading, paused, UploadTask, KnowledgeBaseStore, is_pending, add, change_first,
  set_status, can_start, max_active, start_upload, start_first,
}

abbrev pub md5s : List UploadTask → List String
md5s tasks = map (λ t. t.file_md5) tasks

-- How many tasks could start.
abbrev pub waiting : List String → List UploadTask → ℕ
waiting active [] = 0
waiting active (t ∷ ts) = (if can_start active t then 1 else 0) + waiting active ts

abbrev pub is_paused : UploadStatus → Bool
is_paused paused = true
is_paused _ = false

-- The state `Paused`, which no code of the store sets.
abbrev pub not_paused : UploadTask → Bool
not_paused t = not (is_paused t.status)

-- No upload is active twice, no two tasks are for one file, and none is paused.
pub record IsTidy (active : List String) (tasks : List UploadTask) : Type 0 where
  pub few : length active ≤ max_active
  pub different : distinct active ≡ true
  pub files : distinct (md5s tasks) ≡ true
  pub running : all not_paused tasks ≡ true

-- There is no room, or no task could start.
abbrev pub NoneWaits : List String → List UploadTask → Type 0
NoneWaits active tasks = (length active ≡ max_active) ⊎ (waiting active tasks ≡ 0)

pub record Inv (s : KnowledgeBaseStore) : Type 0 where
  pub tidy : IsTidy s.active_uploads s.tasks
  pub none_waits : NoneWaits s.active_uploads s.tasks

includes-add :
    (m : String) (active : List String) (x : String)
    → includes (add m active) x ≡ (includes active x || m == x)
includes-add m active x = elim (Bool-cases (includes active m)) [
  | inl old ↦ rw old (elim (Bool-cases (m == x)) [
    | inl same ↦ rw (same, ← (eq_iff m x).0 same, old)
    | inr other ↦ ground arith
  ])
  | inr new ↦ rw (new, includes-append active (m ∷ []) x) (ground arith)
]

waiting-add :
    (m : String) (active : List String) (ts : List UploadTask)
    → waiting (add m active) ts ≤ waiting active ts
waiting-add m active [] = omega arith
waiting-add m active (t ∷ ts) =
    ground (arith, includes-add m active t.file_md5, waiting-add m active ts)

find?-includes :
    (active : List String) (ts : List UploadTask) (t : UploadTask)
    → find? (can_start active) ts ≡ some t
    → (includes (md5s ts) t.file_md5 ≡ true) × (includes active t.file_md5 ≡ false)
find?-includes active [] t h = cc
find?-includes active (u ∷ ts) t h = elim (Bool-cases (can_start active u)) [
  | inl here ↦ ground (arith, here, eq_iff u.file_md5 t.file_md5)
  | inr later ↦ ground (arith, later, find?-includes active ts t)
]

waiting-start :
    (active : List String) (ts : List UploadTask) (t : UploadTask)
    → find? (can_start active) ts ≡ some t
    → waiting (add t.file_md5 active) (change_first (can_start active) (set_status uploading) ts)
        + 1
      ≤ waiting active ts
unfolding change_first
waiting-start active [] t h = cc
waiting-start active (u ∷ ts) t h = elim (Bool-cases (can_start active u)) [
  | inl here ↦ ground (arith, here, waiting-add t.file_md5 active ts)
  | inr later ↦
      ground (arith, later, includes-add t.file_md5 active u.file_md5, waiting-start active ts t)
]

pub all-change_first :
    (q p : UploadTask → Bool) (f : UploadTask → UploadTask) (ts : List UploadTask)
    → ((t : UploadTask) → q t ≡ true → q (f t) ≡ true)
    → all q ts ≡ true
    → all q (change_first p f ts) ≡ true
unfolding change_first
all-change_first q p f [] h k = refl
all-change_first q p f (t ∷ ts) h k = ground (arith, h t, all-change_first q p f ts h)

pub md5s-change_first :
    (p : UploadTask → Bool) (f : UploadTask → UploadTask) (ts : List UploadTask)
    → ((t : UploadTask) → (f t).file_md5 ≡ t.file_md5)
    → md5s (change_first p f ts) ≡ md5s ts
unfolding change_first
md5s-change_first p f [] h = refl
md5s-change_first p f (t ∷ ts) h = ground (arith, h t, md5s-change_first p f ts h)

distinct-add :
    (m : String) (active : List String) → distinct active ≡ true → distinct (add m active) ≡ true
distinct-add m active h = elim (Bool-cases (includes active m)) [
  | inl old ↦ rw old h
  | inr new ↦ rw new (distinct-concat active m h new)
]

length-add :
    (m : String) (active : List String)
    → includes active m ≡ false
    → length (add m active) ≡ length active + 1
length-add m active h = rw h (omega (arith, length-append active (m ∷ [])))

none-waiting :
    (active : List String) (ts : List UploadTask)
    → find? (can_start active) ts ≡ none
    → waiting active ts ≡ 0
none-waiting active [] h = refl
none-waiting active (t ∷ ts) h = ground (arith, none-waiting active ts)

-- The store is tidy, and one start is enough for no task to wait.
pub record IsReady (s : KnowledgeBaseStore) : Type 0 where
  pub tidy : IsTidy s.active_uploads s.tasks
  pub ready : (2 ≤ length s.active_uploads) ⊎ (waiting s.active_uploads s.tasks ≤ 1)

start_first-Inv :
    (s : KnowledgeBaseStore) (o : Option UploadTask)
    → find? (can_start s.active_uploads) s.tasks ≡ o
    → IsReady s
    → length s.active_uploads < max_active
    → Inv (start_first o s)
unfolding start_first
start_first-Inv s none h r l = record {
  tidy = r.tidy;
  none_waits = inr (none-waiting s.active_uploads s.tasks h);
}
start_first-Inv s (some t) h r l =
    let (named, idle) = find?-includes s.active_uploads s.tasks t h in
    let longer = length-add t.file_md5 s.active_uploads idle in
    record {
      tidy = record {
        few = omega arith;
        different = distinct-add t.file_md5 s.active_uploads r.tidy.different;
        files =
            ap distinct (
              md5s-change_first (can_start s.active_uploads) (set_status uploading) s.tasks
                (λ t. refl))
            ∙ r.tidy.files;
        running =
            all-change_first not_paused (can_start s.active_uploads) (set_status uploading) s.tasks
              (λ u k. refl) r.tidy.running;
      };
      none_waits = elim (r.ready) [
        | inl two ↦ inl (omega arith)
        | inr one ↦ inr (omega (arith, waiting-start s.active_uploads s.tasks t h))
      ];
    }

pub start_upload-Inv : (s : KnowledgeBaseStore) → IsReady s → Inv (start_upload s)
unfolding start_upload
start_upload-Inv s r = elim (Bool-cases (leb max_active (length s.active_uploads))) [
  | inl full ↦
      rw full
        (record { tidy = r.tidy; none_waits = inl (omega (arith, r.tidy.few, leb→le _ _ full)) })
  | inr room ↦
      rw room (
        start_first-Inv s (find? (can_start s.active_uploads) s.tasks) refl r (not-leb→lt _ _ room))
]

module _ (active : List String) (p : UploadTask → Bool) (f : UploadTask → UploadTask)
    (same : (t : UploadTask) → (f t).file_md5 ≡ t.file_md5) where
  -- A write to one task makes at most one more task wait.
  pub waiting-change_first :
      (ts : List UploadTask) → waiting active (change_first p f ts) ≤ waiting active ts + 1
  unfolding change_first
  waiting-change_first [] = omega arith
  waiting-change_first (t ∷ ts) = ground (arith, waiting-change_first ts)

  -- If it makes no task pending, no more task waits.
  pub waiting-change_first_le :
      ((t : UploadTask) → is_pending (f t).status ≡ true → is_pending t.status ≡ true)
      → (ts : List UploadTask) → waiting active (change_first p f ts) ≤ waiting active ts
  unfolding change_first
  waiting-change_first_le h [] = omega arith
  waiting-change_first_le h (t ∷ ts) = ground (arith, h t, same t, waiting-change_first_le h ts)
