-- ===== src/Registry/Interleaved/Blocks.antt =====
-- Each block keeps the registry serial.
use chrondb.Base.{
  ℕ, ◌+◌, ◌<◌, true, Option, some, ◌==◌, ◌≡◌, ◌≢◌, sym, ◌∙◌, inl, inr, arith, ltb, Bool-cases,
  Option-cases, ok, err,
}
use chrondb.Error.{DbResult}
use chrondb.Registry.Unique.{same_key_iff}
use chrondb.Registry.Steps.{looking, creating, registering, opened, looked, created}
use chrondb.Registry.{
  Key, at_worker, upgrade, find_worker, create_new_worker, register, unregister, release,
}
use chrondb.Registry.Interleaved.{
  Opens, is_ahead, is_settled, after, asked, released, removed, IsSerial,
}

pub asks-IsSerial :
    (t : ℕ) (k : Key) (s : Opens)
    → is_settled (s.stage t) ≡ true
    → IsSerial s
    → IsSerial (asked t k s)
asks-IsSerial t k s settled v = record {
  registered =
      λ id h. elim (v.registered id h) [ inl e ↦ inl e | inr (u, e) ↦ inr (u, ground (arith, e)) ];
  keyed = v.keyed;
  fresh = v.fresh;
  alone = λ u id a h e. ground (arith, v.alone u id);
  held = λ u id e. ground (arith, v.held u id);
  one = λ u w a b e. ground (arith, v.one u w);
  unused = λ i h. ground (arith, v.unused i);
  apart = λ i j h u. ground (arith, v.apart i j, v.unused i);
  aside = λ i w h a. ground (arith, v.aside i w);
}

pub registers-IsSerial :
    (t id : ℕ) (s : Opens)
    → s.stage t ≡ registering id
    → IsSerial s
    → IsSerial (after t (opened id, register (s.wants t) id s.workers) s)
unfolding register
registers-IsSerial t id s at v = record {
  registered = λ j h. elim (v.registered j h) [
    | inl e ↦ inl (ground (arith, e, h, v.alone t j, same_key_iff (s.wants t) (s.workers.key_of j)))
    | inr (u, e) ↦ elim (Bool-cases (t == u)) [
      | inl same ↦
          inl (
            ground (arith, e, at, same, v.held t id, same_key_iff (s.wants t) (s.workers.key_of j)))
      | inr other ↦ inr (u, ground (arith, e, other))
    ]
  ];
  keyed =
      λ k j h. ground (arith, v.keyed k j, v.held t id at, v.fresh id, same_key_iff (s.wants t) k);
  fresh = v.fresh;
  alone = λ u j a h e. ground (arith, v.alone u j);
  held = λ u j e. ground (arith, v.held u j);
  one = λ u w a b e. ground (arith, v.one u w);
  unused = λ i h. ground (arith, v.unused i);
  apart = λ i j h u. ground (arith, v.apart i j, v.unused i);
  aside = λ i w h a. ground (arith, v.aside i w);
}

-- The look-up finds a worker in use.
finds-IsSerial :
    (t id : ℕ) (s : Opens)
    → s.stage t ≡ looking
    → ltb 0 (s.workers.strong id) ≡ true
    → IsSerial s
    → IsSerial (
        after t
          (
            opened id,
            record s.workers { strong = at_worker s.workers.strong id (s.workers.strong id + 1) },
          )
          s)
finds-IsSerial t id s at live v = record {
  registered = λ j h. elim (v.registered j (ground (arith, h, live))) [
    | inl e ↦ inl e
    | inr (u, e) ↦ inr (u, ground (arith, e))
  ];
  keyed = v.keyed;
  fresh = λ j h. ground (arith, v.fresh j, v.fresh id);
  alone = λ u j a h e. ground (arith, v.alone u j);
  held = λ u j e. ground (arith, v.held u j);
  one = λ u w a b e. ground (arith, v.one u w);
  unused = λ i h. ground (arith, v.unused i);
  apart = λ i j h u. ground (arith, v.apart i j, v.unused i);
  aside = λ i w h a. ground (arith, v.aside i w);
}

-- The look-up finds none in use, and no other thread is ahead with the key.
misses-IsSerial :
    (t : ℕ) (s : Opens)
    → s.stage t ≡ looking
    → ((u : ℕ) → is_ahead (s.stage u) ≡ true → s.wants u ≢ s.wants t)
    → ((id : ℕ) → s.dropping id ≡ true → s.workers.key_of id ≢ s.wants t)
    → ((id : ℕ) → s.workers.registry (s.wants t) ≡ some id → s.workers.strong id ≡ 0)
    → IsSerial s
    → IsSerial (after t (creating, s.workers) s)
misses-IsSerial t s at clear gone unused v = record {
  registered =
      λ j h. elim (v.registered j h) [ inl e ↦ inl e | inr (u, e) ↦ inr (u, ground (arith, e)) ];
  keyed = v.keyed;
  fresh = v.fresh;
  alone = λ u j a h e. elim (Bool-cases (t == u)) [
    | inl same ↦
        let mine : s.workers.key_of j ≡ s.wants t = ground (arith, e, same) in
        absurd (elim (v.registered j h) [
          | inl r ↦ ground (arith, unused j (rw mine at r), h)
          | inr (w, r) ↦ clear w (ground (arith, r)) (sym (v.held w j r).1 ∙ mine)
        ])
    | inr other ↦ ground (arith, v.alone u j, other)
  ];
  held = λ u j e. ground (arith, v.held u j);
  one = λ u w a b e. ground (arith, v.one u w, clear u, clear w);
  unused = λ i h. ground (arith, v.unused i);
  apart = λ i j h u. ground (arith, v.apart i j, v.unused i);
  aside = λ i w h a. ground (arith, v.aside i w, gone i);
}

pub creates-IsSerial :
    (t : ℕ) (idle : Option ℕ) (init : DbResult (Unit {0})) (s : Opens)
    → s.stage t ≡ creating
    → IsSerial s
    → IsSerial (after t (created (create_new_worker (s.wants t) idle init s.workers)) s)
unfolding created create_new_worker
creates-IsSerial t idle (err e) s at v = record {
  registered =
      λ j h. elim (v.registered j h) [ inl e ↦ inl e | inr (u, e) ↦ inr (u, ground (arith, e)) ];
  keyed = v.keyed;
  fresh = v.fresh;
  alone = λ u j a h e. ground (arith, v.alone u j);
  held = λ u j e. ground (arith, v.held u j);
  one = λ u w a b e. ground (arith, v.one u w);
  unused = λ i h. ground (arith, v.unused i);
  apart = λ i j h u. ground (arith, v.apart i j, v.unused i);
  aside = λ i w h a. ground (arith, v.aside i w);
}
creates-IsSerial t idle (ok u) s at v = record {
  registered = λ j h. elim (Bool-cases (s.workers.next == j)) [
    | inl new ↦ inr (t, ground (arith, new))
    | inr old ↦ elim (v.registered j (ground (arith, h, old))) [
      | inl e ↦ inl (ground (arith, e, old))
      | inr (u, e) ↦ inr (u, ground (arith, e, old))
    ]
  ];
  keyed = λ k j h. ground (arith, v.keyed k j);
  fresh = λ j h. ground (arith, v.fresh j);
  alone = λ u j a h e. ground (arith, v.alone u j, v.alone t j, v.one u t);
  held = λ u j e. ground (arith, v.held u j, v.fresh j);
  one = λ u w a b e. ground (arith, v.one u w);
  unused = λ i h. ground (arith, v.unused i);
  apart = λ i j h used.
      ground (arith, v.apart i j h, (v.unused i h).1, v.aside i t h (ground (arith, at)));
  aside = λ i w h a. ground (arith, v.aside i w, v.unused i);
}

-- Two workers in use with one key are one, where neither is about to be registered.
same_of_key :
    (id j : ℕ) (s : Opens)
    → IsSerial s
    → 0 < s.workers.strong id
    → ((t : ℕ) → s.stage t ≢ registering id)
    → 0 < s.workers.strong j
    → s.workers.key_of id ≡ s.workers.key_of j
    → id ≡ j
same_of_key id j s v used returned h e = elim (v.registered id used) [
  | inl r ↦ elim (v.registered j h) [
    | inl q ↦ ground (arith, e, r, q)
    | inr (u, q) ↦
        absurd (returned u (v.alone u id (ground (arith, q)) used (e ∙ (v.held u j q).1)))
  ]
  | inr (u, r) ↦ absurd (returned u r)
]

pub releases-IsSerial :
    (id : ℕ) (s : Opens)
    → 0 < s.workers.strong id
    → ((t : ℕ) → s.stage t ≢ registering id)
    → IsSerial s
    → IsSerial (released id s)
unfolding release
releases-IsSerial id s used returned v = record {
  registered = λ j h. v.registered j (ground (arith, h));
  keyed = v.keyed;
  fresh = λ j h. ground (arith, v.fresh j);
  alone = λ u j a h e. v.alone u j a (ground (arith, h)) e;
  held = λ u j e. ground (arith, v.held u j, returned u);
  one = v.one;
  unused = λ i h. ground (arith, v.unused i, v.fresh id);
  apart = λ i j h u. ground (arith, v.apart i j, same_of_key id j s v used returned);
  aside = λ i w h a. ground (arith, v.aside i w, v.alone w id a used, returned w);
}

pub removes-IsSerial :
    (id : ℕ) (s : Opens) → s.dropping id ≡ true → IsSerial s → IsSerial (removed id s)
unfolding unregister
removes-IsSerial id s going v = record {
  registered = λ j h. elim (v.registered j h) [
    | inl e ↦ inl (
        ground
          (arith, e, v.apart id j going h, same_key_iff (s.workers.key_of id) (s.workers.key_of j)))
    | inr e ↦ inr e
  ];
  keyed = λ k j h. ground (arith, v.keyed k j);
  fresh = v.fresh;
  alone = v.alone;
  held = v.held;
  one = v.one;
  unused = λ i h. ground (arith, v.unused i);
  apart = λ i j h u. ground (arith, v.apart i j);
  aside = λ i w h a. ground (arith, v.aside i w);
}

pub looks-IsSerial :
    (t : ℕ) (s : Opens)
    → s.stage t ≡ looking
    → ((u : ℕ) → is_ahead (s.stage u) ≡ true → s.wants u ≢ s.wants t)
    → ((id : ℕ) → s.dropping id ≡ true → s.workers.key_of id ≢ s.wants t)
    → IsSerial s
    → IsSerial (after t (looked (find_worker (s.wants t) s.workers)) s)
unfolding find_worker upgrade looked
looks-IsSerial t s at clear gone v = elim (Option-cases (s.workers.registry (s.wants t))) [
  | inl e ↦
      rw (e, upgrade, looked) (misses-IsSerial t s at clear gone (λ id r. ground (arith, e, r)) v)
  | inr (id, e) ↦ elim (Bool-cases (ltb 0 (s.workers.strong id))) [
    | inl live ↦ rw (e, upgrade, live, looked) (finds-IsSerial t id s at live v)
    | inr dead ↦
        rw (e, upgrade, dead, looked)
          (misses-IsSerial t s at clear gone (λ j r. ground (arith, e, r, dead)) v)
  ]
]
