-- ===== src/Upload/Queue/Deletes.antt =====
-- What the end of an upload changes in the counts of the queue:
-- frontend/src/store/modules/knowledge-base/index.ts.
use smart_copilot.Common.{
  ◌+◌, ◌≤◌, String, ◌≡◌, refl, true, false, not, ◌&&◌, List, [], ◌∷◌, ◌++◌, ◌==◌, includes-filter,
  includes, distinct, length, arith, eq_iff, Bool-cases, inl, inr,
}
use smart_copilot.Upload.Queue.{UploadTask, delete}
use smart_copilot.Upload.Queue.Room.{md5s, waiting}

pub waiting-append :
    (active : List String) (ts us : List UploadTask)
    → waiting active (ts ++ us) ≡ waiting active ts + waiting active us
waiting-append active [] us = omega arith
waiting-append active (t ∷ ts) us = omega (arith, waiting-append active ts us)

includes-delete :
    (m : String) (active : List String) (x : String)
    → includes (delete m active) x ≡ (includes active x && not (x == m))
includes-delete m active x = includes-filter (λ y. not (y == m)) active x

waiting-delete_absent :
    (m : String) (active : List String) (ts : List UploadTask)
    → includes (md5s ts) m ≡ false
    → waiting (delete m active) ts ≡ waiting active ts
waiting-delete_absent m active [] h = refl
waiting-delete_absent m active (t ∷ ts) h =
    ground (arith, includes-delete m active t.file_md5, waiting-delete_absent m active ts)

-- The end of one upload makes at most one more task wait.
pub waiting-delete :
    (m : String) (active : List String) (ts : List UploadTask)
    → distinct (md5s ts) ≡ true
    → waiting (delete m active) ts ≤ waiting active ts + 1
waiting-delete m active [] h = omega arith
waiting-delete m active (t ∷ ts) h = elim (Bool-cases (t.file_md5 == m)) [
  | inl here ↦ ground (arith, here, eq_iff t.file_md5 m, waiting-delete_absent m active ts)
  | inr other ↦
      ground (arith, other, includes-delete m active t.file_md5, waiting-delete m active ts)
]

length-delete_absent :
    (m : String) (active : List String)
    → includes active m ≡ false
    → length (delete m active) ≡ length active
length-delete_absent m [] h = refl
length-delete_absent m (a ∷ active) h = ground (arith, length-delete_absent m active)

pub length-delete :
    (m : String) (active : List String)
    → distinct active ≡ true
    → (length (delete m active) ≤ length active) × (length active ≤ length (delete m active) + 1)
length-delete m [] h = (omega arith, omega arith)
length-delete m (a ∷ active) h = elim (Bool-cases (a == m)) [
  | inl here ↦ ground (arith, here, eq_iff a m, length-delete_absent m active)
  | inr other ↦ ground (arith, other, length-delete m active)
]
