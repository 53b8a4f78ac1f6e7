-- ===== src/Files/Resumes.antt =====
-- Resumed files in the queue of uploads: frontend/src/views/knowledge-base/index.vue with
-- frontend/src/store/modules/knowledge-base/index.ts.
use smart_copilot.Common.{
  String, refl, Bool, true, false, not, Option, none, some, ◌==◌, if◌then◌else◌,
}
use smart_copilot.Upload.Queue.{KnowledgeBaseStore, has_md5, set_status, pending}
use smart_copilot.Upload.Queue.Room.{Inv}
use smart_copilot.Upload.Queue.Events.{restart-Inv}
use smart_copilot.Files.Deletes.{Progress, resume_upload, on_before_upload, resumed}

Inv-if :
    (b : Bool) (s t : KnowledgeBaseStore)
    → Inv s
    → Inv t
    → Inv (if◌then◌else◌ {A = Bool × KnowledgeBaseStore} b (false, s) (true, t)).1
Inv-if true s t v w = v
Inv-if false s t v w = w

on_before_upload-Inv :
    (md5 row_md5 : String) (p : Option Progress) (s : KnowledgeBaseStore)
    → Inv s
    → Inv (on_before_upload md5 row_md5 p s).1
unfolding on_before_upload
on_before_upload-Inv md5 row_md5 none s v = v
on_before_upload-Inv md5 row_md5 (some p) s v =
    Inv-if (not (md5 == row_md5)) s _ v
      (restart-Inv (has_md5 row_md5) (resumed p) s (λ t. refl) (λ t k. refl) v)

-- To resume a file, with the file that is there or with one that is chosen again, keeps the invariant
-- of the queue of uploads, whatever the server answers and whether or not the digests agree.
pub resume-Inv :
    (md5 row_md5 : String) (p : Option Progress) (s : KnowledgeBaseStore)
    → Inv s
    → Inv (resume_upload row_md5 s) × Inv (on_before_upload md5 row_md5 p s).1
unfolding resume_upload
resume-Inv md5 row_md5 p s v = (
  restart-Inv (has_md5 row_md5) (set_status pending) s (λ t. refl) (λ t k. refl) v,
  on_before_upload-Inv md5 row_md5 p s v,
)
