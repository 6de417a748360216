-- ===== src/System/Drain.antt =====
-- A worker's thread takes its turns: what its channel holds is served, and a worker that was stopped ends.
use chrondb.Base.{
  ℕ, true, false, List, [], ◌∷◌, map, ◌≡◌, refl, sym, ◌∙◌, ap, arith, Bool-cases, inl, inr,
}
use chrondb.Platform.{Platform}
use chrondb.Setup.Target.{Target}
use chrondb.Command.{FfiCommand}
use chrondb.Worker.Dispatch.{is_shutdown}
use chrondb.Worker.Replies.{ticket_of}
use chrondb.Client.IdleLink.{Pause}
use chrondb.Registry.{at_worker}
use chrondb.System.{Thread, System, after_serving}
use chrondb.System.Threads.{serve_side, serve_next, serve_thread, wake_thread}
use chrondb.System.Reach.{Reachable}
use chrondb.System.Queues.{tickets, IsOrdered}
use chrondb.System.Sound.{was_stopped, IsSoundAt, IsSound}
use chrondb.System.Sound.Steps.{
  Reachable-IsSound, serve_side-awaited, serve_thread-IsSound, wake_thread-IsSound,
}
use chrondb.System.Delivery.{length, answered_of_empty}

pub at_worker_self : {A : Type 0} (f : ℕ → A) (id : ℕ) (a : A) → at_worker f id a id ≡ a
at_worker_self f id a = ground arith

pub nil_of_length : {A : Type 0} (xs : List A) → length xs ≡ 0 → xs ≡ []
nil_of_length [] h = refl
nil_of_length (x ∷ xs) h = absurd (omega (arith, h))

module _ {V : Type 0} (a : ℕ) (t : Thread V) (v : IsSoundAt a t) where
  ended_of_empty : t.queue ≡ [] → t.ended ≡ was_stopped t.phase
  ended_of_empty e = elim (Bool-cases t.ended) [
    | inl over ↦ over ∙ sym (v.over over).1
    | inr alive ↦ alive ∙ sym (rw e at (v.running alive))
  ]

  -- A shutdown is the last command.
  pub last_of_shutdown :
      (cmd : FfiCommand) (rest : List FfiCommand)
      → t.queue ≡ cmd ∷ rest
      → t.ended ≡ false
      → is_shutdown cmd ≡ true
      → rest ≡ []
  last_of_shutdown cmd rest e alive h =
      let ordered : IsOrdered (was_stopped t.phase) (cmd ∷ rest) = rw e at (v.running alive) in
      (rw h at ordered).1

-- Two states of a thread between which nothing came or went.
pub record IsQuiet {V : Type 0} (t u : Thread V) : Type 0 where
  pub queue : u.queue ≡ t.queue
  pub ended : u.ended ≡ t.ended
  pub phase : u.phase ≡ t.phase
  pub asked : u.asked ≡ t.asked
  pub replies : u.replies ≡ t.replies

module _ (p : Platform) (target : Target) (id : ℕ) where
  open p use {World, Value}

  -- Timeouts of the thread.
  unfoldable pub wake_all : List ℕ → System Value World → System Value World
  wake_all [] s = s
  wake_all (now ∷ rest) s = wake_all rest (wake_thread p target id now s)

  -- Turns of the thread, each with the timeouts before it.
  unfoldable pub drain : List Pause → System Value World → System Value World
  unfolding wake_all
  drain [] s = s
  drain (q ∷ rest) s = drain rest (serve_thread p target id q.receipt (wake_all q.timeouts s))

  pub wake_thread-IsQuiet :
      (now : ℕ) (s : System Value World)
      → IsQuiet (s.threads id) ((wake_thread p target id now s).threads id)
  unfolding wake_thread
  wake_thread-IsQuiet now s =
      rw (at_worker_self s.threads id _)
        (record { queue = refl; ended = refl; phase = refl; asked = refl; replies = refl })

  pub wake_all-IsQuiet :
      (nows : List ℕ) (s : System Value World)
      → IsSound s
      → IsSound (wake_all nows s) × IsQuiet (s.threads id) ((wake_all nows s).threads id)
  unfolding wake_all
  wake_all-IsQuiet [] s v =
      (v, record { queue = refl; ended = refl; phase = refl; asked = refl; replies = refl })
  wake_all-IsQuiet (now ∷ rest) s v =
      let one = wake_thread-IsQuiet now s in
      let (sound, more) =
        wake_all-IsQuiet rest (wake_thread p target id now s)
          (wake_thread-IsSound p target id now s v) in
      (
        sound,
        record {
          queue = more.queue ∙ one.queue;
          ended = more.ended ∙ one.ended;
          phase = more.phase ∙ one.phase;
          asked = more.asked ∙ one.asked;
          replies = more.replies ∙ one.replies;
        },
      )

  -- What a turn does to the thread.
  pub serve_thread-after_serving :
      (now : ℕ) (cmd : FfiCommand) (rest : List FfiCommand) (s : System Value World)
      → (s.threads id).queue ≡ cmd ∷ rest
      → (serve_thread p target id now s).threads id
        ≡ after_serving rest
            (serve_side p target (s.threads id).side cmd now s.process)
            (s.threads id)
  unfolding serve_thread serve_next
  serve_thread-after_serving now cmd rest s e = rw e (at_worker_self s.threads id _)

  -- As many turns as there are commands in the channel.
  abbrev Drained : Thread Value → Thread Value → Type 0
  Drained t u =
      (u.queue ≡ [])
      × (u.ended ≡ was_stopped t.phase)
      × (u.asked ≡ t.asked)
      × (map ticket_of u.replies ≡ tickets t.asked)

  empty-Drained : (a : ℕ) (t : Thread Value) → IsSoundAt a t → t.queue ≡ [] → Drained t t
  empty-Drained a t v e = (e, ended_of_empty a t v e, refl, answered_of_empty a t v e)

  -- The same in terms of an earlier state.
  Drained-before :
      (t u x : Thread Value) → u.phase ≡ t.phase → u.asked ≡ t.asked → Drained u x → Drained t x
  Drained-before t u x phase asked (queue, ended, same, replies) =
      (queue, ended ∙ ap was_stopped phase, same ∙ asked, replies ∙ ap tickets asked)

  pub drain-empty :
      (pauses : List Pause) (s : System Value World) → pauses ≡ [] → drain pauses s ≡ s
  unfolding drain
  drain-empty pauses s e = rw e refl

  drain-Drained :
      (pauses : List Pause) (s : System Value World) (q : List FfiCommand)
      → IsSound s
      → (s.threads id).ended ≡ false
      → (s.threads id).queue ≡ q
      → length pauses ≡ length q
      → Drained (s.threads id) ((drain pauses s).threads id)
  unfolding drain
  drain-Drained [] s q v alive e h =
      let none_left = e ∙ nil_of_length q (sym h) in
      empty-Drained _ (s.threads id) (v.at id) none_left
  drain-Drained (pause ∷ pauses) s [] v alive e h = absurd (omega (arith, h))
  drain-Drained (pause ∷ pauses) s (cmd ∷ rest) v alive e h =
      let s1 = wake_all pause.timeouts s in
      let (v1, quiet) = wake_all-IsQuiet pause.timeouts s v in
      let first = quiet.queue ∙ e in
      let alive1 = quiet.ended ∙ alive in
      let d = serve_side p target (s1.threads id).side cmd pause.receipt s1.process in
      let s2 = serve_thread p target id pause.receipt s1 in
      let v2 = serve_thread-IsSound p target id pause.receipt s1 v1 alive1 in
      let served = serve_thread-after_serving pause.receipt cmd rest s1 first in
      let stops =
        (serve_side-awaited p target (s1.threads id).side cmd pause.receipt s1.process).1 in
      let phase = ap (λ (t : Thread Value). t.phase) served ∙ quiet.phase in
      let asked = ap (λ (t : Thread Value). t.asked) served ∙ quiet.asked in
      elim (Bool-cases d.stop) [
        | inl over ↦
            let last =
              last_of_shutdown _ (s1.threads id) (v1.at id) cmd rest first alive1
                (sym stops ∙ over) in
            let no_more =
              nil_of_length pauses (omega (arith, h, ap (length {A = FfiCommand}) last)) in
            let gone = ap (λ (t : Thread Value). t.queue) served ∙ rw over refl in
            rw (drain-empty pauses s2 no_more) (
              Drained-before (s.threads id) (s2.threads id) (s2.threads id) phase asked
                (empty-Drained _ (s2.threads id) (v2.at id) gone))
        | inr more ↦
            Drained-before (s.threads id) (s2.threads id) ((drain pauses s2).threads id) phase asked
              (drain-Drained pauses s2 rest v2 (ap (λ (t : Thread Value). t.ended) served ∙ more)
                (ap (λ (t : Thread Value). t.queue) served ∙ rw more refl) (omega (arith, h)))
      ]

  -- From any state that a process reaches, a worker's thread takes as many turns as there are commands in
  -- its channel, with any timeouts before each and whatever the library does: its channel is empty, the
  -- replies that it has sent since its start are those that all commands sent to the worker wait for,
  -- each once and in the order of sending, and it has ended just if the worker's drop has sent its
  -- shutdown, so that the join of the drop returns.
  pub Reachable-drain :
      {s : System Value World} (pauses : List Pause)
      → Reachable p target s
      → length pauses ≡ length (s.threads id).queue
      → let t = (drain pauses s).threads id in
        (t.queue ≡ [])
        × (t.ended ≡ was_stopped (s.threads id).phase)
        × (t.asked ≡ (s.threads id).asked)
        × (map ticket_of t.replies ≡ tickets (s.threads id).asked)
  Reachable-drain {s} pauses r h =
      let v = Reachable-IsSound p target r in
      elim (Bool-cases (s.threads id).ended) [
        | inl over ↦
            let gone = ((v.at id).over over).0 in
            let none_left = nil_of_length pauses (h ∙ ap (length {A = FfiCommand}) gone) in
            rw (drain-empty pauses s none_left) (empty-Drained _ (s.threads id) (v.at id) gone)
        | inr alive ↦ drain-Drained pauses s (s.threads id).queue v alive refl h
      ]
