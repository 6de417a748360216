-- ===== src/Registry/Interleaved/Threads.antt =====
-- Any number of threads, from a process with no workers.
use chrondb.Base.{ℕ, ◌<◌, ◌≡◌, inl, inr, arith}
use chrondb.Registry.Interleaved.{
  Opens, Step, asks, looks, creates, registers, releases, removes, IsSerial, Reachable, starts,
  steps,
}
use chrondb.Registry.Interleaved.Blocks.{
  asks-IsSerial, looks-IsSerial, creates-IsSerial, registers-IsSerial, releases-IsSerial,
  removes-IsSerial,
}

Step-IsSerial : {s s' : Opens} → Step s s' → IsSerial s → IsSerial s'
Step-IsSerial (asks t k s s' settled e) v = rw e (asks-IsSerial t k s settled v)
Step-IsSerial (looks t s s' at clear gone e) v = rw e (looks-IsSerial t s at clear gone v)
Step-IsSerial (creates t idle init s s' at e) v = rw e (creates-IsSerial t idle init s at v)
Step-IsSerial (registers t id s s' at e) v = rw e (registers-IsSerial t id s at v)
Step-IsSerial (releases id s s' used returned e) v = rw e (releases-IsSerial id s used returned v)
Step-IsSerial (removes id s s' going e) v = rw e (removes-IsSerial id s going v)

Reachable-IsSerial : {s : Opens} → Reachable s → IsSerial s
Reachable-IsSerial (starts s none_yet idle settled) = record {
  registered = λ id h. absurd (ground (arith, none_yet, h));
  keyed = λ k id h. absurd (ground (arith, none_yet, h));
  fresh = λ id h. ground (arith, none_yet);
  alone = λ t id a h e. absurd (ground (arith, settled t, a));
  held = λ t id e. absurd (ground (arith, settled t, e));
  one = λ t u a b e. absurd (ground (arith, settled t, a));
  unused = λ i h. absurd (ground (arith, idle i, h));
  apart = λ i j h u. absurd (ground (arith, idle i, h));
  aside = λ i t h a. absurd (ground (arith, idle i, h));
}
Reachable-IsSerial (steps r step) = Step-IsSerial step (Reachable-IsSerial r)

-- However the blocks of opens, failing ones included, and of drops of any number of threads come: if no
-- thread looks a key up while another one is between its look-up of that key and its registration, or
-- while a worker of that key has no handle left and its entry is to be removed, and only returned handles
-- are dropped, then two workers that are in use have different keys, also while opens and drops are under
-- way.
pub Reachable-unique :
    {s : Opens} (a b : ℕ)
    → Reachable s
    → 0 < s.workers.strong a
    → 0 < s.workers.strong b
    → s.workers.key_of a ≡ s.workers.key_of b
    → a ≡ b
Reachable-unique {s} a b r used_a used_b e =
    let v = Reachable-IsSerial r in
    elim (v.registered a used_a) [
      | inl f ↦ elim (v.registered b used_b) [
        | inl g ↦ ground (arith, e, f, g)
        | inr (t, g) ↦ ground (arith, e, f, g, v.held t b, v.alone t a, used_a)
      ]
      | inr (t, f) ↦ ground (arith, e, f, v.held t a, v.alone t b, used_b)
    ]
