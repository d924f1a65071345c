-- ===== src/Server/Tombstones/Retention.antt =====
-- How long `remember_salt_locked` (server.cpp) keeps a tombstone.
use kcp_proxy_cpp.Base.{
  ℕ, ◌≤◌, ◌<◌, ◌≡◌, ◌≢◌, refl, List, [], ◌∷◌, length, some, Option-cases, inl, inr, Map, map_find,
  map_erase, map_find-erase, map_find-insert, length-map_erase, length-map_insert, ◌+◌, arith,
  bytes_key, bytes_beq_iff,
}
use kcp_proxy_cpp.Server.Tombstones.{
  max_salt_tombstones, Tombstones, prune_loop, evict_loop, prune_salt_tombstones, remember_salt,
}

pub length-prune_loop :
    (now : ℕ) (table : Map (List ℕ) ℕ) (order : List (List ℕ))
    → length (prune_loop now table order).table ≤ length table
unfolding prune_loop
length-prune_loop now table [] = omega arith
length-prune_loop now table (front ∷ rest) = elim (Option-cases (map_find front table)) [
  | inl e ↦ ground (arith, e, length-prune_loop now table rest)
  | inr (expiry, e) ↦
      ground
        (arith, e, length-prune_loop now (map_erase front table) rest, length-map_erase front table)
]

prune_loop-keeps :
    (now : ℕ) (table : Map (List ℕ) ℕ) (order : List (List ℕ)) (salt : List ℕ) (expiry : ℕ)
    → map_find salt table ≡ some expiry
    → now < expiry
    → map_find salt (prune_loop now table order).table ≡ some expiry
unfolding prune_loop
prune_loop-keeps now table [] salt expiry at later = at
prune_loop-keeps now table (front ∷ rest) salt expiry at later =
    elim (Option-cases (map_find front table)) [
      | inl e ↦ ground (arith, e, prune_loop-keeps now table rest salt expiry at later)
      | inr (x, e) ↦ ground (
        arith,
        e,
        prune_loop-keeps now (map_erase front table) rest salt expiry,
        map_find-erase front salt table,
        bytes_beq_iff front salt,
      )
    ]

evict_loop_lem :
    (table : Map (List ℕ) ℕ) (order : List (List ℕ))
    → length table < max_salt_tombstones
    → (evict_loop table order).table ≡ table
unfolding evict_loop
evict_loop_lem table [] small = refl
evict_loop_lem table (front ∷ rest) small = ground arith

-- Below the limit, remembering a salt makes the table one entry longer at most.
pub length-remember_salt_growth :
    (t : Tombstones) (salt : List ℕ) (expiry now : ℕ)
    → length t.table < max_salt_tombstones
    → length (remember_salt t salt expiry now).table ≤ length t.table + 1
unfolding remember_salt prune_salt_tombstones
length-remember_salt_growth t salt expiry now small =
    let pruned = prune_loop now t.table t.order in
    ground (
      arith,
      length-prune_loop now t.table t.order,
      evict_loop_lem pruned.table pruned.order,
      length-map_insert salt expiry (evict_loop pruned.table pruned.order).table,
    )

-- The salt that is remembered has its expiry afterwards, whatever was discarded for it.
pub remember_salt-finds :
    (t : Tombstones) (salt : List ℕ) (expiry now : ℕ)
    → map_find salt (remember_salt t salt expiry now).table ≡ some expiry
unfolding remember_salt
remember_salt-finds t salt expiry now =
    let pruned = prune_salt_tombstones t now in
    ground (
      arith,
      map_find-insert salt salt expiry (evict_loop pruned.table pruned.order).table,
      bytes_beq_iff salt salt,
    )

-- While the table is below its limit, remembering a salt discards no tombstone of another salt that
-- has not expired.
pub remember_salt-keeps :
    (t : Tombstones) (salt other : List ℕ) (expiry other_expiry now : ℕ)
    → length t.table < max_salt_tombstones
    → salt ≢ other
    → map_find other t.table ≡ some other_expiry
    → now < other_expiry
    → map_find other (remember_salt t salt expiry now).table ≡ some other_expiry
unfolding remember_salt prune_salt_tombstones
remember_salt-keeps t salt other expiry other_expiry now small distinct at later =
    let pruned = prune_loop now t.table t.order in
    ground (
      arith,
      length-prune_loop now t.table t.order,
      prune_loop-keeps now t.table t.order other other_expiry at later,
      evict_loop_lem pruned.table pruned.order,
      map_find-insert salt other expiry (evict_loop pruned.table pruned.order).table,
      bytes_beq_iff salt other,
    )
