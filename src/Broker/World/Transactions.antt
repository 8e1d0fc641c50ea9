-- ===== src/Broker/World/Transactions.antt =====
-- The transactions of a file store: all or nothing, and what is on disk after them.
use ai_security_gateway.Base.{
  suc, ◌≡◌, refl, sym, ◌⊎◌, inl, inr, true, false, Option, none, some, arith, subst, Bool-cases,
}
use ai_security_gateway.Base.Result.{Result, ok, err}
use ai_security_gateway.Broker.Models.{Error, os_error}
use ai_security_gateway.Broker.Store.{Store, empty}
use ai_security_gateway.Broker.Store.Snapshot.{
  Snapshot, sections, dump, rebuild, set_agents, set_delegations, set_approvals, set_events,
  IsWellKeyed, rebuild-dump,
}
use ai_security_gateway.Broker.World.{
  Env, World, M, Writing, written, failed_before_replace, failed_after_replace, file, fill, assign,
  load, persist, roll_back, settle, outermost, transaction,
}

-- Reading what was written gives its records back.
abbrev pub ReadsBack : {File : Type 0} → Env File → Type 0
ReadsBack env = (s : Snapshot) → env.read (env.write s) ≡ some (sections s)

-- What a file store finds on disk: no file, which is an empty store, or a file of these records.
pub data Holds {File : Type 0} (env : Env File) (disk : Option File) (s : Store) : Type 0 where
  absent : disk ≡ none → s ≡ empty → Holds env disk s
  present :
      (f : File) (x : Snapshot)
      → disk ≡ some f
      → env.read f ≡ some (sections x)
      → s ≡ rebuild x
      → Holds env disk s

module _ {File : Type 0} (env : Env File) where
  pub fill-sections :
      (x : Snapshot) (w : World File)
      → fill env (sections x) w ≡ (ok tt, record w { memory = rebuild x })
  unfolding fill assign rebuild set_agents set_delegations set_approvals set_events
  fill-sections x w = refl

  -- A load puts the store of the disk into memory.
  pub load-Holds :
      (s : Store) (w : World File)
      → Holds env w.disk s
      → load env w ≡ (ok tt, record w { memory = s })
  unfolding load
  load-Holds s w (absent e f) = ground arith
  load-Holds s w (present f x e r i) = ground (arith, fill-sections x w)

  Writing-cases :
      (x : Writing) → (x ≡ written) ⊎ ((x ≡ failed_before_replace) ⊎ (x ≡ failed_after_replace))
  Writing-cases written = inl refl
  Writing-cases failed_before_replace = inr (inl refl)
  Writing-cases failed_after_replace = inr (inr refl)

  -- What is written is what the disk holds then.
  written-Holds :
      (s : Store) (d : Option File)
      → ReadsBack env
      → IsWellKeyed s
      → d ≡ some (env.write (dump s))
      → Holds env d s
  written-Holds s d back keyed e =
      present (env.write (dump s)) (dump s) e (back (dump s)) (sym (rebuild-dump s keyed))

  -- How a transaction of this method may end, from the store on disk at its start. `w1` is the world
  -- at the end of the method.
  pub data Ends {A : Type 0} (old : Option File) (s : Store) (run : Result Error A × World File)
      (out : Result Error A × World File) : Type 0 where
    committed :
        (a : A)
        → run.0 ≡ ok a
        → run.1.dirty ≡ true
        → out.0 ≡ ok a
        → out.1.memory ≡ run.1.memory
        → Holds env out.1.disk run.1.memory
        → Ends old s run out
    read_only :
        (a : A)
        → run.0 ≡ ok a
        → run.1.dirty ≡ false
        → out.0 ≡ ok a
        → out.1.memory ≡ run.1.memory
        → out.1.disk ≡ old
        → Ends old s run out
    undone :
        (e : Error)
        → out.0 ≡ err e
        → (run.0 ≡ err e) ⊎ (e ≡ os_error)
        → out.1.memory ≡ s
        → out.1.disk ≡ old
        → Ends old s run out
    stored_late :
        (a : A)
        → run.0 ≡ ok a
        → out.0 ≡ err os_error
        → out.1.memory ≡ run.1.memory
        → Holds env out.1.disk run.1.memory
        → Ends old s run out

  module _ {A : Type 0} (old : Option File) (s : Store) (back : ReadsBack env)
      (held : Holds env old s) where
    -- Going back to the disk: memory is what the disk holds, and the exception stays.
    roll_back-Holds :
        (e : Error) (t : Store) (w : World File)
        → Holds env w.disk t
        → roll_back env {A = A} e w ≡ (err e, record w { memory = t })
    unfolding roll_back
    roll_back-Holds e t w h = rw (load-Holds t w h)

    settle-Ends :
        (r : Result Error A) (w : World File)
        → w.disk ≡ old
        → IsWellKeyed w.memory
        → Ends old s (r, w) (settle env (r, w))
    unfolding settle persist
    settle-Ends (err e) w d keyed =
        let back_to = roll_back-Holds e s w (rw d held) in
        undone e (ground arith) (inl refl) (ground arith) (ground arith)
    settle-Ends (ok a) w d keyed = elim (Bool-cases w.dirty) [
      | inr f ↦ read_only a refl f (ground arith) (ground arith) (ground arith)
      | inl f ↦ elim (Writing-cases (env.writing w.readings)) [
        | inl g ↦
            committed a refl f (ground arith) (ground arith)
              (written-Holds w.memory _ back keyed (ground arith))
        | inr (inl g) ↦
            let back_to =
              roll_back-Holds os_error s (record w { readings = suc w.readings }) (rw d held) in
            undone os_error (ground arith) (inr refl) (ground arith) (ground arith)
        | inr (inr g) ↦
            let stored : World File = record w {
              disk = some (env.write (dump w.memory));
              readings = suc w.readings;
            } in
            let on_disk = written-Holds w.memory stored.disk back keyed refl in
            let back_to = roll_back-Holds os_error w.memory stored on_disk in
            stored_late a refl (ground arith) (ground arith)
              (subst (λ (x : Option File). Holds env x w.memory) (ground arith) on_disk)
      ]
    ]

    settle-closed :
        (r : Result Error A) (w : World File)
        → ((settle env (r, w)).1.nested ≡ false) × ((settle env (r, w)).1.dirty ≡ false)
    unfolding settle
    settle-closed (err e) w = (refl, refl)
    settle-closed (ok a) w = (ground arith, ground arith)

  -- The world in which the method runs.
  abbrev pub opened : Store → World File → World File
  opened s w = record w { memory = s; nested = true; dirty = false }

  -- A transaction of a file store is all or nothing. From a readable disk, a method that leaves the
  -- disk alone and the store keyed ends in one of four ways: its store is on disk and in memory; it
  -- wrote nothing and the disk is as it was; it or the write raised, and disk and memory are as
  -- they were; or the write failed only after the replacement, and the new store is on disk and in
  -- memory though the exception is raised. No transaction is open afterwards.
  pub transaction-Ends :
      {A : Type 0} (m : M File A) (s : Store) (w : World File)
      → ReadsBack env
      → w.backend ≡ file
      → w.nested ≡ false
      → Holds env w.disk s
      → (m (opened s w)).1.disk ≡ w.disk
      → IsWellKeyed (m (opened s w)).1.memory
      → Ends w.disk s (m (opened s w)) (transaction env m w)
        × ((transaction env m w).1.nested ≡ false)
        × ((transaction env m w).1.dirty ≡ false)
  unfolding transaction outermost
  transaction-Ends m s w back b n held d keyed =
      let loaded = load-Holds s w held in
      let same : transaction env m w ≡ settle env (m (opened s w)) = ground arith in
      let closed = settle-closed w.disk s back held (m (opened s w)).0 (m (opened s w)).1 in
      rw same (
        settle-Ends w.disk s back held (m (opened s w)).0 (m (opened s w)).1 d keyed,
        closed.0,
        closed.1,
      )

  abbrev after_write : World File → World File
  after_write w = record w { readings = suc w.readings; disk = some (env.write (dump w.memory)) }

  persist-written :
      (w : World File) → (persist env w).0 ≡ ok tt → persist env w ≡ (ok tt, after_write w)
  unfolding persist
  persist-written w h = ground arith

  -- What a write of the file that returns has stored is what the next load gives back, whatever is in
  -- memory by then: the same records under the same keys, in their order. The stored file is read back
  -- as it was written, and every record stands under its own key, once.
  pub persist-load :
      (w : World File) (t : Store)
      → ReadsBack env
      → IsWellKeyed w.memory
      → (persist env w).0 ≡ ok tt
      → load env (record (persist env w).1 { memory = t }) ≡ (ok tt, (persist env w).1)
  persist-load w t back keyed stored =
      let next = after_write w in
      let holds = written-Holds w.memory next.disk back keyed refl in
      subst (λ x. load env (record x.1 { memory = t }) ≡ (ok tt, x.1))
        (sym (persist-written w stored)) (load-Holds w.memory (record next { memory = t }) holds)
