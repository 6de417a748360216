-- ===== src/System/Sound.antt =====
-- What holds of every worker in every state that the process reaches.
pub mod Steps
use mathlib.Core.List.{map-append, append_assoc, append-nil}
use chrondb.Base.{
  ℕ, zero, suc, ◌+◌, ◌-◌, ◌≤◌, ◌<◌, Bool, true, false, Option, none, some, List, [], ◌∷◌, ◌++◌, map,
  ltb, ◌==◌, ◌≡◌, refl, sym, ◌∙◌, ap, subst, arith, Bool-cases, inl, inr, if◌then◌else◌, ok, err,
}
use chrondb.Platform.{Platform}
use chrondb.Setup.Target.{Target}
use chrondb.Setup.Install.{Process}
use chrondb.Command.{FfiCommand, shutdown, Sent}
use chrondb.Worker.Dispatch.{is_shutdown}
use chrondb.Worker.Replies.{
  Ticket, ticket_of, awaited, one, dispatch_command-awaited, turn-Answered,
}
use chrondb.Registry.{
  Key, Workers, no_workers, at_worker, upgrade, find_worker, create_new_worker, register,
  unregister, release,
}
use chrondb.System
use chrondb.System.{
  Side, plain, idle, Phase, in_use, dropping, removed, stopping, joined, Thread, System, Served,
  enqueue, spawned, begin_drop, after_serving,
}
use chrondb.System.Queues.{
  tickets, tickets-append, IsOrdered, append-IsOrdered, append_shutdown-IsOrdered,
}

-- The `drop` of the worker has sent its shutdown.
abbrev pub was_stopped : Phase → Bool
was_stopped in_use = false
was_stopped dropping = false
was_stopped removed = false
was_stopped stopping = true
was_stopped joined = true

-- A worker with handles is in use; a thread that has not ended has a shutdown at the end of its channel
-- just if one was sent; one that has ended has an empty channel, behind a shutdown; and what was sent
-- back and what the commands in the channel wait for is what all commands waited for.
pub record IsSoundAt {V : Type 0} (strong : ℕ) (t : Thread V) : Type 0 where
  pub held : 0 < strong → t.phase ≡ in_use
  pub running : t.ended ≡ false → IsOrdered (was_stopped t.phase) t.queue
  pub over : t.ended ≡ true → (t.queue ≡ []) × (was_stopped t.phase ≡ true)
  pub balanced : map ticket_of t.replies ++ tickets t.queue ≡ tickets t.asked

pub record IsSound {V W : Type 0} (s : System V W) : Type 0 where
  pub at : (id : ℕ) → IsSoundAt (s.workers.strong id) (s.threads id)
  pub fresh : (id : ℕ) → s.workers.next ≤ id → s.workers.strong id ≡ 0

module _ {V : Type 0} where
  pub spawned-IsSoundAt : (side : Side) (strong : ℕ) → IsSoundAt {V = V} strong (spawned side)
  unfolding tickets
  spawned-IsSoundAt side strong = record {
    held = λ h. refl;
    running = λ e. refl;
    over = λ e. cc;
    balanced = refl;
  }

  -- A change of one thread.
  pub at_worker-IsSoundAt :
      (strong : ℕ → ℕ) (threads : ℕ → Thread V) (id : ℕ) (t : Thread V)
      → IsSoundAt (strong id) t
      → ((j : ℕ) → (id == j) ≡ false → IsSoundAt (strong j) (threads j))
      → (j : ℕ) → IsSoundAt (strong j) (at_worker threads id t j)
  at_worker-IsSoundAt strong threads id t now v j = elim (Bool-cases (id == j)) [
    | inl e ↦
        let same : id ≡ j = ground (arith, e) in
        rw e (subst (λ (k : ℕ). IsSoundAt (strong k) t) same now)
    | inr e ↦ rw e (v j e)
  ]

  -- Fewer handles.
  pub fewer-IsSoundAt : (a b : ℕ) (t : Thread V) → (0 < b → 0 < a) → IsSoundAt a t → IsSoundAt b t
  fewer-IsSoundAt a b t used v = record {
    held = λ h. v.held (used h);
    running = v.running;
    over = v.over;
    balanced = v.balanced;
  }

  pub not_over :
      (a : ℕ) (t : Thread V) → IsSoundAt a t → was_stopped t.phase ≡ false → t.ended ≡ false
  not_over a t v h = elim (Bool-cases t.ended) [ inl e ↦ absurd (cc (h, (v.over e).1)) | inr e ↦ e ]

  balanced_enqueue :
      (cmd : FfiCommand) (t : Thread V)
      → map ticket_of t.replies ++ tickets t.queue ≡ tickets t.asked
      → map ticket_of t.replies ++ tickets (t.queue ++ cmd ∷ []) ≡ tickets (t.asked ++ cmd ∷ [])
  balanced_enqueue cmd t v =
      rw (tickets-append t.queue (cmd ∷ []), tickets-append t.asked (cmd ∷ []))
        (sym (append_assoc (map ticket_of t.replies) (tickets t.queue) (tickets (cmd ∷ [])))
          ∙ ap (λ (x : List Ticket). x ++ tickets (cmd ∷ [])) v)

  pub enqueue-IsSoundAt :
      (a : ℕ) (cmd : FfiCommand) (t : Thread V)
      → IsSoundAt a t
      → was_stopped t.phase ≡ false
      → is_shutdown cmd ≡ false
      → IsSoundAt a (enqueue cmd t)
  enqueue-IsSoundAt a cmd t v unstopped plain_cmd =
      let running = not_over a t v unstopped in
      rw running (record {
        held = v.held;
        running = λ e.
            rw unstopped
              (append-IsOrdered t.queue cmd plain_cmd (rw unstopped at (v.running running)));
        over = λ e. cc e;
        balanced = balanced_enqueue cmd t v.balanced;
      })

  pub stop-IsSoundAt :
      (t : Thread V)
      → (a : ℕ) → IsSoundAt a t
      → t.phase ≡ removed
      → IsSoundAt a (record (enqueue shutdown t) { phase = stopping })
  stop-IsSoundAt t a v h =
      let unstopped : was_stopped t.phase ≡ false = ap was_stopped h in
      let running = not_over a t v unstopped in
      rw running (record {
        held = λ used. absurd (cc (h, v.held used));
        running = λ e. append_shutdown-IsOrdered t.queue (rw unstopped at (v.running running));
        over = λ e. cc e;
        balanced = balanced_enqueue shutdown t v.balanced;
      })

  -- The other parts of a `drop`.
  pub phase-IsSoundAt :
      (a b : ℕ) (t : Thread V) (next : Phase)
      → IsSoundAt a t
      → b ≡ 0
      → was_stopped t.phase ≡ was_stopped next
      → IsSoundAt b (record t { phase = next })
  phase-IsSoundAt a b t next v unused same = record {
    held = λ used. absurd (omega (arith, used, unused));
    running = λ e. rw same at (v.running e);
    over = λ e. ((v.over e).0, sym same ∙ (v.over e).1);
    balanced = v.balanced;
  }

  balanced_serving :
      (cmd : FfiCommand) (rest : List FfiCommand) (before now : List (Sent V)) (all : List Ticket)
      → map ticket_of now ≡ one (awaited cmd)
      → map ticket_of before ++ tickets (cmd ∷ rest) ≡ all
      → map ticket_of (before ++ now) ++ tickets rest ≡ all
  unfolding tickets
  balanced_serving cmd rest before now all answered v = rw (map-append, append_assoc, answered) v

  -- A served command, by the reply to it and by whether the loop stops.
  pub serving-IsSoundAt :
      {W : Type 0} (a : ℕ) (cmd : FfiCommand) (rest : List FfiCommand) (d : Served V W)
      (t : Thread V)
      → IsSoundAt a t
      → t.queue ≡ cmd ∷ rest
      → t.ended ≡ false
      → (map ticket_of d.sent ≡ one (awaited cmd)) × (d.stop ≡ is_shutdown cmd)
      → IsSoundAt a (after_serving rest d t)
  serving-IsSoundAt a cmd rest d t v first alive answered = elim (Bool-cases d.stop) [
    | inl e ↦
        let last = rw (sym answered.1 ∙ e) at ordered in
        rw e (record {
          held = v.held;
          running = λ h. cc h;
          over = λ h. (refl, last.0);
          balanced = rw last.1 at all;
        })
    | inr e ↦
        let more = rw (sym answered.1 ∙ e) at ordered in
        rw e (record { held = v.held; running = λ h. more; over = λ h. cc h; balanced = all })
  ]
    where
      ordered : IsOrdered (was_stopped t.phase) (cmd ∷ rest)
      ordered = rw first at (v.running alive)

      all : map ticket_of (t.replies ++ d.sent) ++ tickets rest ≡ tickets t.asked
      all =
          balanced_serving cmd rest t.replies d.sent (tickets t.asked) answered.0
            (rw first at v.balanced)
