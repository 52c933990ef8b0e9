-- ===== src/Database/Assign/Many.antt =====
-- Any number of calls of `job_available` on one job.
use drqueue.Prelude.{
  ℕ, ◌≡◌, ap, ap₂, ◌∙◌, ◌≢◌, inl, inr, Option, none, some, List, [], ◌∷◌, arith, Option-cases,
  update_self,
}
use drqueue.Frame.{fs_assigned}
use drqueue.Shm.{FrameTable, attach_frame_shared_memory}
use drqueue.Database.{Database}
use drqueue.Database.Assign.{marked, reserved, job_available}
use drqueue.Database.Assign.Once.{Handed-table, job_available-Handed}
use drqueue.Database.Assign.Keeps.{refused_keeps}

-- The frames that calls for these computers, one after the other, hand out.
abbrev pub handed_with : Option ℕ → List ℕ → List ℕ
handed_with none rest = rest
handed_with (some i) rest = i ∷ rest

unfoldable pub frames_handed : Database → ℕ → List ℕ → List ℕ
frames_handed wdb ijob [] = []
frames_handed wdb ijob (icomp ∷ icomps) =
    handed_with (job_available wdb ijob icomp).1
      (frames_handed (job_available wdb ijob icomp).0 ijob icomps)

abbrev pub IsNotIn : ℕ → List ℕ → Type 0
IsNotIn i [] = Unit {0}
IsNotIn i (j ∷ js) = (i ≢ j) × IsNotIn i js

abbrev pub HasNoRepeat : List ℕ → Type 0
HasNoRepeat [] = Unit {0}
HasNoRepeat (i ∷ is) = IsNotIn i is × HasNoRepeat is

-- The frame is assigned in the table that the job has.
record IsAssigned (wdb : Database) (ijob i : ℕ) : Type 0 where
  fi : FrameTable
  attached : attach_frame_shared_memory wdb.shm (wdb.job ijob).fishmid ≡ some fi
  assigned : (fi.cell i).status ≡ fs_assigned

handed-IsAssigned :
    (wdb : Database) (ijob icomp i : ℕ)
    → (job_available wdb ijob icomp).1 ≡ some i
    → IsAssigned (job_available wdb ijob icomp).0 ijob i
handed-IsAssigned wdb ijob icomp i e =
    let h = job_available-Handed wdb ijob icomp i e in
    record {
      fi = marked icomp i h.fi;
      attached = Handed-table wdb (job_available wdb ijob icomp).0 ijob icomp i h;
      assigned = ap (λ f. f.status) (update_self h.fi.cell i (reserved icomp (h.fi.cell i)));
    }

still-IsAssigned :
    (wdb : Database) (ijob icomp i : ℕ)
    → IsAssigned wdb ijob i
    → IsAssigned (job_available wdb ijob icomp).0 ijob i
still-IsAssigned wdb ijob icomp i a = elim (Option-cases (job_available wdb ijob icomp).1) [
  | inl e ↦
      let (shm, jobs) = refused_keeps wdb ijob icomp e in
      record {
        fi = a.fi;
        attached = ap₂ (λ s j. attach_frame_shared_memory s (j ijob).fishmid) shm jobs ∙ a.attached;
        assigned = a.assigned;
      }
  | inr (j, e) ↦
      let h = job_available-Handed wdb ijob icomp j e in
      let same : h.fi ≡ a.fi = ground (arith, h.attached, a.attached) in
      let before : (h.fi.cell i).status ≡ fs_assigned =
        ap (λ t. (t.cell i).status) same ∙ a.assigned in
      record {
        fi = marked icomp j h.fi;
        attached = Handed-table wdb (job_available wdb ijob icomp).0 ijob icomp j h;
        assigned = ground (arith, before);
      }
]

assigned-IsNotIn :
    (icomps : List ℕ) (wdb : Database) (ijob i : ℕ)
    → IsAssigned wdb ijob i
    → IsNotIn i (frames_handed wdb ijob icomps)
unfolding frames_handed
assigned-IsNotIn [] wdb ijob i a = record {}
assigned-IsNotIn (icomp ∷ icomps) wdb ijob i a =
    let later =
      assigned-IsNotIn icomps (job_available wdb ijob icomp).0 ijob i
        (still-IsAssigned wdb ijob icomp i a) in
    elim (Option-cases (job_available wdb ijob icomp).1) [
      | inl e ↦ rw (frames_handed, e) later
      | inr (j, e) ↦
          let h = job_available-Handed wdb ijob icomp j e in
          let same : h.fi ≡ a.fi = ground (arith, h.attached, a.attached) in
          let before : (h.fi.cell i).status ≡ fs_assigned =
            ap (λ t. (t.cell i).status) same ∙ a.assigned in
          rw (frames_handed, e) ((λ is. ground (arith, before, h.waiting)), later)
    ]

-- However many times a job is asked for a frame, and for whatever computers, no frame is handed out
-- twice.
pub frames_handed-HasNoRepeat :
    (wdb : Database) (ijob : ℕ) (icomps : List ℕ) → HasNoRepeat (frames_handed wdb ijob icomps)
unfolding frames_handed
frames_handed-HasNoRepeat wdb ijob [] = record {}
frames_handed-HasNoRepeat wdb ijob (icomp ∷ icomps) =
    let later = frames_handed-HasNoRepeat (job_available wdb ijob icomp).0 ijob icomps in
    elim (Option-cases (job_available wdb ijob icomp).1) [
      | inl e ↦ rw (frames_handed, e) later
      | inr (i, e) ↦
          rw (frames_handed, e)
            (
              assigned-IsNotIn icomps (job_available wdb ijob icomp).0 ijob i
                  (handed-IsAssigned wdb ijob icomp i e),
              later,
            )
    ]
