-- ===== src/Store/Commit.antt =====
-- What persisting does to a store, for the proofs about the operations.
use mathlib.Core.Path.{subst}
use helix_gateway.Base.{
  sym, Option, none, some, ◌≡◌, inl, inr, arith, Option-cases, is_empty, if◌then◌else◌,
}
use helix_gateway.Store.State.{
  Store, Io, Disk, Failure, Result, ok, err, export, persist, notify, commit,
}

-- The configuration file holds the store; without a path, it is left as it was.
abbrev pub Written : Io → Store → Disk → Type 0
Written io s d = d.main ≡ (if is_empty s.file_path then s.disk.main else io.marshal (export s))

-- Persisting changes the disk only.
persist-store : (io : Io) (s : Store) → (persist io s).1 ≡ record s { disk = (persist io s).1.disk }
unfolding persist
persist-store io s = ground arith

persist-Written :
    (io : Io) (s : Store) → (persist io s).0 ≡ none → Written io s (persist io s).1.disk
unfolding persist
persist-Written io s e = ground arith

persist-failed :
    (io : Io) (s : Store) (f : Failure)
    → (persist io s).0 ≡ some f
    → (persist io s).1.disk.main ≡ s.disk.main
unfolding persist
persist-failed io s f e = ground arith

-- The two ends of a call of `persist`: what holds at both holds of the call.
pub persist-ends {κ} :
    (P : Option Failure × Store → Type κ) (io : Io) (s : Store)
    → ((d : Disk) → Written io s d → P (none, record s { disk = d }))
    → ((d : Disk) (f : Failure) → d.main ≡ s.disk.main → P (some f, record s { disk = d }))
    → P (persist io s)
persist-ends P io s done failed =
    let d = (persist io s).1.disk in
    let e = persist-store io s in
    let pair : persist io s ≡ ((persist io s).0, record s { disk = d }) =
      λ i. ((persist io s).0, e i) in
    elim (Option-cases (persist io s).0) [
      | inl n ↦ subst P (sym pair) (rw n (done d (persist-Written io s n)))
      | inr (f, n) ↦ subst P (sym pair) (rw n (failed d f (persist-failed io s f n)))
    ]

-- The two ends of a call of `commit`.
pub commit-ends {ℓ κ} :
    {A : Type ℓ} (P : Result A × Store → Type κ) (io : Io) (s : Store) (a : A)
    (undo : Store → Store)
    → ((d : Disk) → Written io s d → P (ok a, notify (record s { disk = d })))
    → ((d : Disk) (f : Failure) → d.main ≡ s.disk.main → P (err f, undo (record s { disk = d })))
    → P (commit io s a undo)
unfolding commit
commit-ends P io s a undo done failed =
    persist-ends (λ p. P (elim p.0 [ none ↦ (ok a, notify p.1) | some f ↦ (err f, undo p.1) ])) io s
      done failed
