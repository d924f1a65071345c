-- ===== src/Server/Tombstones/Bound.antt =====
-- The size of the table of salt tombstones (server.cpp).
use kcp_proxy_cpp.Base.{
  ℕ, ◌≤◌, ◌<◌, ◌≡◌, ap, Bool, true, false, ◌||◌, List, [], ◌∷◌, ◌++◌, length, none, some,
  Option-cases, inl, inr, Bool-cases, Map, map_find, map_erase, map_find-erase, map_find-insert,
  length-map_insert, arith, bytes_key, bytes_beq_iff, bytes_eq,
}
use kcp_proxy_cpp.Server.Tombstones.{
  max_salt_tombstones, Tombstones, prune_loop, evict_loop, prune_salt_tombstones, remember_salt,
}

-- A salt stands in the order of insertions.
abbrev listed : List ℕ → List (List ℕ) → Bool
listed salt [] = false
listed salt (front ∷ rest) = bytes_eq front salt || listed salt rest

-- Every entry of the table stands in the order, so that discarding from the order's front reaches it.
abbrev pub IsListed : Tombstones → Type 0
IsListed t =
    (salt : List ℕ) (expiry : ℕ) → map_find salt t.table ≡ some expiry → listed salt t.order ≡ true

listed-append :
    (salt new : List ℕ) (order : List (List ℕ))
    → listed salt (order ++ (new ∷ [])) ≡ (listed salt order || bytes_eq new salt)
listed-append salt new [] = ground arith
listed-append salt new (front ∷ rest) = ground (arith, listed-append salt new rest)

erase-IsListed :
    (table : Map (List ℕ) ℕ) (front : List ℕ) (rest : List (List ℕ))
    → IsListed (record { table = table; order = front ∷ rest })
    → IsListed (record { table = map_erase front table; order = rest })
erase-IsListed table front rest all salt expiry at =
    ground (arith, map_find-erase front salt table, bytes_beq_iff front salt, all salt expiry)

skip-IsListed :
    (table : Map (List ℕ) ℕ) (front : List ℕ) (rest : List (List ℕ))
    → map_find front table ≡ none
    → IsListed (record { table = table; order = front ∷ rest })
    → IsListed (record { table = table; order = rest })
skip-IsListed table front rest gone all salt expiry at = elim (Bool-cases (bytes_eq front salt)) [
  | inl e ↦
      absurd (ground (arith, gone, at, ap (λ k. map_find k table) ((bytes_beq_iff front salt).0 e)))
  | inr e ↦ ground (arith, e, all salt expiry at)
]

prune_loop-IsListed :
    (now : ℕ) (table : Map (List ℕ) ℕ) (order : List (List ℕ))
    → IsListed (record { table = table; order = order })
    → IsListed (prune_loop now table order)
unfolding prune_loop
prune_loop-IsListed now table [] all salt expiry at = all salt expiry at
prune_loop-IsListed now table (front ∷ rest) all salt expiry at =
    elim (Option-cases (map_find front table)) [
      | inl e ↦ ground (
        arith,
        e,
        prune_loop-IsListed now table rest (skip-IsListed table front rest e all) salt expiry,
      )
      | inr (x, e) ↦ ground (
        arith,
        e,
        all salt expiry,
        prune_loop-IsListed now (map_erase front table) rest (erase-IsListed table front rest all)
            salt expiry,
      )
    ]

evict_loop-IsListed :
    (table : Map (List ℕ) ℕ) (order : List (List ℕ))
    → IsListed (record { table = table; order = order })
    → IsListed (evict_loop table order)
unfolding evict_loop
evict_loop-IsListed table [] all salt expiry at = all salt expiry at
evict_loop-IsListed table (front ∷ rest) all salt expiry at = ground (
  arith,
  all salt expiry,
  evict_loop-IsListed (map_erase front table) rest (erase-IsListed table front rest all) salt
      expiry,
)

-- The loop makes room: it never runs out of order before the table is below its limit.
length-evict_loop :
    (table : Map (List ℕ) ℕ) (order : List (List ℕ))
    → IsListed (record { table = table; order = order })
    → length (evict_loop table order).table < max_salt_tombstones
unfolding evict_loop
length-evict_loop [] [] all = omega arith
length-evict_loop ((salt, expiry) ∷ rest) [] all =
    absurd (ground (arith, all salt expiry, bytes_beq_iff salt salt))
length-evict_loop table (front ∷ rest) all =
    ground
      (arith, length-evict_loop (map_erase front table) rest (erase-IsListed table front rest all))

remember_salt-IsListed :
    (t : Tombstones) (salt : List ℕ) (expiry now : ℕ)
    → IsListed t
    → IsListed (remember_salt t salt expiry now)
unfolding remember_salt prune_salt_tombstones
remember_salt-IsListed t salt expiry now all other x =
    let pruned = prune_loop now t.table t.order in
    let roomy = evict_loop pruned.table pruned.order in
    ground (
      arith,
      evict_loop-IsListed pruned.table pruned.order (prune_loop-IsListed now t.table t.order all)
          other x,
      map_find-insert salt other expiry roomy.table,
      listed-append other salt roomy.order,
    )

length-remember_salt :
    (t : Tombstones) (salt : List ℕ) (expiry now : ℕ)
    → IsListed t
    → length (remember_salt t salt expiry now).table ≤ max_salt_tombstones
unfolding remember_salt prune_salt_tombstones
length-remember_salt t salt expiry now all =
    let pruned = prune_loop now t.table t.order in
    let roomy = evict_loop pruned.table pruned.order in
    ground (
      arith,
      length-evict_loop pruned.table pruned.order (prune_loop-IsListed now t.table t.order all),
      length-map_insert salt expiry roomy.table,
    )

-- A server's tombstones after remembering these salts, each with its expiry and the time of the call.
pub remember_all : List (List ℕ × ℕ × ℕ) → Tombstones
remember_all [] = record { table = []; order = [] }
remember_all ((salt, expiry, now) ∷ earlier) = remember_salt (remember_all earlier) salt expiry now

remember_all-IsListed : (calls : List (List ℕ × ℕ × ℕ)) → IsListed (remember_all calls)
unfolding remember_all
remember_all-IsListed [] salt expiry at = absurd (ground arith)
remember_all-IsListed ((new, x, now) ∷ earlier) salt expiry at =
    remember_salt-IsListed (remember_all earlier) new x now (remember_all-IsListed earlier) salt
      expiry at

-- Whatever salts are remembered, in any number and at any times, the table never exceeds its limit.
pub length-remember_all :
    (calls : List (List ℕ × ℕ × ℕ)) → length (remember_all calls).table ≤ max_salt_tombstones
unfolding remember_all
length-remember_all [] = omega arith
length-remember_all ((salt, expiry, now) ∷ earlier) =
    length-remember_salt (remember_all earlier) salt expiry now (remember_all-IsListed earlier)
