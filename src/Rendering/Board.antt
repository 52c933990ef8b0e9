-- ===== src/Rendering/Board.antt =====
-- The board of a job: where each of its frames is, whatever else the master knows of it.
use drqueue.Prelude.{
  ℕ, ◌≡◌, ◌≢◌, none, some, ◌==◌, refl, sym, subst₂, ap₂, fun_ext, update, inl, inr, ◌⊎◌,
  if◌then◌else◌, ap, arith,
}
use drqueue.Frame.{FrameInfo, fs_waiting, fs_assigned, fs_error, fs_finished}
use drqueue.Shm.{FrameTable, attach_frame_shared_memory}
use drqueue.Database.{Database}

pub data Place : Type 0 where
  waiting assigned failed finished unknown : Place

abbrev pub place : ℕ → Place
place status =
    if status == fs_waiting
    then waiting
    else if status == fs_assigned
    then assigned
    else if status == fs_error
    then failed
    else if status == fs_finished
    then finished
    else unknown

abbrev pub table_board : FrameTable → ℕ → Place
table_board fi i = place (fi.cell i).status

-- Without its frame memory nothing is known of the frames.
unfoldable pub board : Database → ℕ → ℕ → Place
board wdb ijob i = elim (attach_frame_shared_memory wdb.shm (wdb.job ijob).fishmid) [
  | none ↦ unknown
  | some fi ↦ table_board fi i
]

pub board_at :
    (wdb : Database) (ijob : ℕ) (fi : FrameTable)
    → attach_frame_shared_memory wdb.shm (wdb.job ijob).fishmid ≡ some fi
    → (i : ℕ) → board wdb ijob i ≡ table_board fi i
unfolding board
board_at wdb ijob fi e i = rw (board, e) refl

-- What may happen on a board: a waiting frame is taken, an assigned one comes back as one of the three
-- others, or nothing.
pub data Move (b b' : ℕ → Place) : Type 0 where
  taken : (i : ℕ) → b i ≡ waiting → b' i ≡ assigned → ((j : ℕ) → j ≢ i → b' j ≡ b j) → Move b b'
  ended :
      (i : ℕ)
      → b i ≡ assigned
      → ((b' i ≡ waiting) ⊎ (b' i ≡ finished)) ⊎ (b' i ≡ failed)
      → ((j : ℕ) → j ≢ i → b' j ≡ b j)
      → Move b b'
  stayed : ((j : ℕ) → b' j ≡ b j) → Move b b'

pub board_same :
    (wdb after : Database) (ijob : ℕ)
    → after.shm ≡ wdb.shm
    → (after.job ijob).fishmid ≡ (wdb.job ijob).fishmid
    → (j : ℕ) → board after ijob j ≡ board wdb ijob j
unfolding board
board_same wdb after ijob same id j =
    ap (λ t. elim t [ none ↦ unknown | some fi ↦ table_board fi j ])
      (ap₂ attach_frame_shared_memory same id)

-- A move of the tables is a move of the boards.
pub table-Move :
    (wdb after : Database) (ijob : ℕ) (fi fi' : FrameTable)
    → attach_frame_shared_memory wdb.shm (wdb.job ijob).fishmid ≡ some fi
    → attach_frame_shared_memory after.shm (after.job ijob).fishmid ≡ some fi'
    → Move (table_board fi) (table_board fi')
    → Move (board wdb ijob) (board after ijob)
table-Move wdb after ijob fi fi' e e' m =
    subst₂ Move (sym (fun_ext (board_at wdb ijob fi e)))
      (sym (fun_ext (board_at after ijob fi' e'))) m

-- One cell of the table is written.
pub cell-taken :
    (fi : FrameTable) (i : ℕ) (f : FrameInfo)
    → (fi.cell i).status ≡ fs_waiting
    → f.status ≡ fs_assigned
    → Move (table_board fi) (table_board (record fi { cell = update fi.cell i f }))
cell-taken fi i f h h' =
    taken i (ground (arith, h)) (ground (arith, h')) (λ j other. ground (arith, other))

pub cell-stayed :
    (fi : FrameTable) (i : ℕ) (f : FrameInfo)
    → f.status ≡ (fi.cell i).status
    → Move (table_board fi) (table_board (record fi { cell = update fi.cell i f }))
cell-stayed fi i f h = stayed (λ j. ground (arith, h))

pub cell-ended :
    (fi : FrameTable) (i : ℕ) (f : FrameInfo)
    → (fi.cell i).status ≡ fs_assigned
    → ((f.status ≡ fs_waiting) ⊎ (f.status ≡ fs_finished)) ⊎ (f.status ≡ fs_error)
    → Move (table_board fi) (table_board (record fi { cell = update fi.cell i f }))
cell-ended fi i f h to =
    ended i (ground (arith, h))
      (elim to [
        | inl (inl w) ↦ inl (inl (ground (arith, w)))
        | inl (inr d) ↦ inl (inr (ground (arith, d)))
        | inr e ↦ inr (ground (arith, e))
      ])
      (λ j other. ground (arith, other))
