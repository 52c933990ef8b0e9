-- ===== src/Request/AvailJob/Order.antt =====
-- The list of jobs in the order of their priority: a property of all its entries is one of all the jobs.
use drqueue.Prelude.{
  ℕ, zero, suc, ◌+◌, ◌≤◌, ◌<◌, inl, inr, subst, List, [], ◌∷◌, ◌==◌, arith, Bool-cases,
}
use drqueue.Job.Priority.{Tpol, Sign, minus, nought, plus, priority_job_compare}
use drqueue.Database.{Database}
use drqueue.Request.AvailJob.{entries, insert, qsort}

-- Every entry of a list has the property.
abbrev pub AllOf : (Tpol → Type 0) → List Tpol → Type 0
AllOf P [] = Unit {0}
AllOf P (e ∷ es) = P e × AllOf P es

insert_cases :
    (P : Tpol → Type 0) (e p : Tpol) (ps : List Tpol)
    → (AllOf P (insert e ps) → P e × AllOf P ps)
    → (s : Sign)
    → AllOf P (elim s [ minus ↦ e ∷ p ∷ ps | nought ↦ e ∷ p ∷ ps | plus ↦ p ∷ insert e ps ])
    → P e × AllOf P (p ∷ ps)
insert_cases P e p ps rest minus a = a
insert_cases P e p ps rest nought a = a
insert_cases P e p ps rest plus (here, a) = let (first, others) = rest a in (first, (here, others))

insert_all :
    (P : Tpol → Type 0) (e : Tpol) (es : List Tpol) → AllOf P (insert e es) → P e × AllOf P es
unfolding insert
insert_all P e [] a = a
insert_all P e (p ∷ ps) a = insert_cases P e p ps (insert_all P e ps) (priority_job_compare e p) a

pub qsort_all : (P : Tpol → Type 0) (es : List Tpol) → AllOf P (qsort es) → AllOf P es
unfolding qsort
qsort_all P [] a = a
qsort_all P (e ∷ es) a =
    let (here, rest) = insert_all P e (qsort es) a in (here, qsort_all P es rest)

pub entries_all :
    (P : ℕ → Type 0) (k i : ℕ) (wdb : Database)
    → AllOf (λ e. P e.index) (entries k i wdb)
    → (j : ℕ) → i ≤ j
    → j < i + k
    → P j
unfolding entries
entries_all P zero i wdb a j l u = absurd (omega arith)
entries_all P (suc k) i wdb a j l u = elim (Bool-cases (i == j)) [
  | inl here ↦ subst P (ground arith) a.0
  | inr further ↦ entries_all P k (i + 1) wdb a.1 j (ground arith) (omega arith)
]
