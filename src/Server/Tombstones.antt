-- ===== src/Server/Tombstones.antt =====
-- The salt tombstones of server.cpp: `prune_salt_tombstones_locked` and `remember_salt_locked`.
pub mod Retention
pub mod Bound
use kcp_proxy_cpp.Base.{
  ℕ, suc, ◌+◌, ◌*◌, ◌≤◌, ◌<◌, ◌≡◌, refl, Bool, true, false, ltb, leb, if◌then◌else◌, List, [], ◌∷◌,
  ◌++◌, length, Option, none, some, Map, map_find, map_insert, map_erase, arith, Eq, bytes_key,
}

-- `MAX_SALT_TOMBSTONES`.
abbrev pub max_salt_tombstones : ℕ
max_salt_tombstones = 4 * 4096

-- The table, and the order of its insertions, oldest first:
-- `salt_tombstones_` and `salt_tombstone_order_`.
pub record Tombstones : Type 0 where
  pub table : Map (List ℕ) ℕ
  pub order : List (List ℕ)

-- The loop over the front of the order.
pub prune_loop : ℕ → Map (List ℕ) ℕ → List (List ℕ) → Tombstones
prune_loop now table [] = record { table = table; order = [] }
prune_loop now table (front ∷ rest) = elim (map_find front table) [
  | none ↦ prune_loop now table rest
  | some expiry ↦
      (let pruned = prune_loop now (map_erase front table) rest in
        if ltb now expiry then record { table = table; order = front ∷ rest } else pruned)
]

pub prune_salt_tombstones : Tombstones → ℕ → Tombstones
unfolding prune_loop
prune_salt_tombstones t now = prune_loop now t.table t.order

-- The loop that discards the oldest entries while the table is full.
pub evict_loop : Map (List ℕ) ℕ → List (List ℕ) → Tombstones
evict_loop table [] = record { table = table; order = [] }
evict_loop table (front ∷ rest) =
    let evicted = evict_loop (map_erase front table) rest in
    if leb max_salt_tombstones (length table)
    then evicted
    else record { table = table; order = front ∷ rest }

pub remember_salt : Tombstones → List ℕ → ℕ → ℕ → Tombstones
unfolding prune_salt_tombstones evict_loop
remember_salt t salt expiry now =
    let pruned = prune_salt_tombstones t now in
    let roomy = evict_loop pruned.table pruned.order in
    record { table = map_insert salt expiry roomy.table; order = roomy.order ++ (salt ∷ []) }
