-- ===== src/System/Overlap.antt =====
-- The drop of a worker takes its entry out of the registry before its thread is told to end.
use chrondb.Base.{
  ℕ, ◌<◌, String, false, Option, none, ◌==◌, ◌≡◌, ◌≢◌, refl, sym, ◌∙◌, ap, arith, ok,
}
use chrondb.Error.{DbResult}
use chrondb.Platform.{Platform}
use chrondb.Setup.Target.{Target}
use chrondb.Setup.Install.{Process}
use chrondb.Worker.State.{FfiWorkerState}
use chrondb.Worker.Init.{init_worker}
use chrondb.Registry.{Key, find_worker, upgrade, create_new_worker, unregister, release}
use chrondb.Registry.Unique.{same_key_iff}
use chrondb.System.{System, Thread, removed, dropping, let_go, remove}
use chrondb.System.Threads.{create_thread, created_thread}
use chrondb.System.Reach.{Reachable, steps, lets_go, removes, creates}
use chrondb.System.Sound.{was_stopped, not_over}
use chrondb.System.Sound.Steps.{Reachable-IsSound}

module _ (p : Platform) (target : Target) where
  open p use {World, Value}

  -- A worker's last handle is gone, and its entry too.
  abbrev pub unlisted : ℕ → System Value World → System Value World
  unlisted id s = remove id (let_go id s)

  let_go-dropping :
      (id : ℕ) (s : System Value World)
      → s.workers.strong id ≡ 1
      → ((let_go id s).threads id).phase ≡ dropping
  unfolding let_go release
  let_go-dropping id s h = ground arith

  unlisted-Reachable :
      (id : ℕ) (s : System Value World)
      → Reachable p target s
      → s.workers.strong id ≡ 1
      → Reachable p target (unlisted id s)
  unlisted-Reachable id s r h =
      steps (steps r (lets_go id _ (omega (arith, h)) refl))
        (removes id _ (let_go-dropping id s h) refl)

  unlisted_thread :
      (id : ℕ) (s : System Value World)
      → s.workers.strong id ≡ 1
      → ((((unlisted id s).threads id).phase ≡ removed)
          × (((unlisted id s).threads id).ended ≡ (s.threads id).ended))
        × ((unlisted id s).workers.next ≡ s.workers.next)
        × ((unlisted id s).workers.key_of id ≡ s.workers.key_of id)
        × ((find_worker (s.workers.key_of id) (unlisted id s).workers).0 ≡ none)
        × ((unlisted id s).process ≡ s.process)
  unfolding remove let_go release unregister find_worker upgrade
  unlisted_thread id s h =
      let same = same_key_iff (s.workers.key_of id) (s.workers.key_of id) in
      ((ground (arith, h), ground (arith, h)), refl, refl, rw (same.1 refl, upgrade) refl, refl)

  -- A new worker beside another one.
  created_beside :
      (id : ℕ) (k : Key) (idle_timeout : Option ℕ) (data_path index_path : String) (now : ℕ)
      (st : FfiWorkerState) (process : Process World) (s : System Value World)
      → (new : ℕ) → s.workers.next ≡ new
      → (new == id) ≡ false
      → let t =
          created_thread p target k idle_timeout data_path index_path now (ok st, process) s in
        (t.threads id ≡ s.threads id)
        × (t.workers.key_of id ≡ s.workers.key_of id)
        × ((t.threads new).ended ≡ false)
        × (t.workers.key_of new ≡ k)
        × (t.workers.strong new ≡ 1)
  unfolding created_thread create_new_worker
  created_beside id k idle_timeout data_path index_path now st process s new e other =
      rw e (rw other refl, rw other refl, ground arith, ground arith, ground arith)

  -- From any state that a process reaches, where a worker has one handle: the handle goes, its drop
  -- takes the registry's lock and removes the entry, and an open of the same paths comes before the rest
  -- of the drop. It finds no worker, and where the initialization succeeds makes one, which has the same
  -- paths and is in use; and the first worker's thread has not been told to end and has not ended, so
  -- that its isolate and its database are still open.
  pub Reachable-overlap :
      {s : System Value World} (id : ℕ) (idle_timeout : Option ℕ) (data_path index_path : String)
      (now : ℕ) (st : FfiWorkerState) (process : Process World)
      → Reachable p target s
      → s.workers.strong id ≡ 1
      → init_worker p target data_path index_path s.process ≡ (ok st, process)
      → let k = s.workers.key_of id in
        let u = unlisted id s in
        let t = create_thread p target k idle_timeout data_path index_path now u in
        let new = s.workers.next in
        Reachable p target t
        × ((find_worker k u.workers).0 ≡ none)
        × (id ≢ new)
        × (t.workers.key_of new ≡ t.workers.key_of id)
        × (0 < t.workers.strong new)
        × ((t.threads new).ended ≡ false)
        × ((t.threads id).ended ≡ false)
        × ((t.threads id).phase ≡ removed)
  unfolding create_thread
  Reachable-overlap {s} id idle_timeout data_path index_path now st process r h opens =
      let v = Reachable-IsSound p target r in
      let k = s.workers.key_of id in
      let u = unlisted id s in
      let (gone, next, key, missing, same) = unlisted_thread id s h in
      let other : (s.workers.next == id) ≡ false = ground (arith, h, v.fresh id) in
      let made =
        ap
          (λ (q : DbResult FfiWorkerState × Process World).
            created_thread p target k idle_timeout data_path index_path now q u)
          (ap (λ (x : Process World). init_worker p target data_path index_path x) same ∙ opens) in
      let (thread, key_kept, alive, key_new, held) =
        created_beside id k idle_timeout data_path index_path now st process u s.workers.next next
          other in
      let running =
        gone.1
        ∙ not_over _ (s.threads id) (v.at id)
            (ap was_stopped ((v.at id).held (omega (arith, h)))) in
      (
        steps (unlisted-Reachable id s r h)
            (creates k idle_timeout data_path index_path now _ refl),
        missing,
        λ e. ground (arith, other, e),
        rw made (key_new ∙ sym (key_kept ∙ key)),
        rw made (omega (arith, held)),
        rw made alive,
        rw made (ap (λ (x : Thread Value). x.ended) thread ∙ running),
        rw made (ap (λ (x : Thread Value). x.phase) thread ∙ gone.0),
      )
