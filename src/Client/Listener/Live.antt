-- ===== src/Client/Listener/Live.antt =====
-- The sessions of the client over every order of its handlers (client.cpp).
use kcp_proxy_cpp.Base.{
  ℕ, ◌+◌, ◌≤◌, ◌≡◌, refl, ap, ◌⊎◌, Bool, true, false, not, ◌&&◌, ◌||◌, List, [], ◌∷◌, ◌++◌, length,
  Option, none, some, ==_iff, arith,
}
use kcp_proxy_cpp.CleanPath.{CleanPathTuning, Sample}
use kcp_proxy_cpp.Client.Listener.{
  max_client_sessions, Client, holds, remove, unexpired, on_session_destroyed, on_accept,
  on_accept_retry, do_update_tick, stop, listening, begin_listening, on_traffic_timer,
}

-- Every number of the second list stands in the first.
abbrev covers : List ℕ → List ℕ → Bool
covers table [] = true
covers table (j ∷ rest) = holds table j && covers table rest

covers-cons : (k : ℕ) (table l : List ℕ) → covers table l ≡ true → covers (k ∷ table) l ≡ true
covers-cons k table [] h = refl
covers-cons k table (j ∷ rest) h = ground (arith, h, covers-cons k table rest)

covers_self : (l : List ℕ) → covers l l ≡ true
covers_self [] = refl
covers_self (j ∷ rest) = ground (arith, covers-cons j rest rest (covers_self rest))

covers-holds :
    (table l : List ℕ) (id : ℕ) → covers table l ≡ true → holds l id ≡ true → holds table id ≡ true
covers-holds table [] id h m = absurd (ground (arith, m))
covers-holds table (j ∷ rest) id h m = ground (arith, h, m, covers-holds table rest id)

holds-unexpired :
    (table live : List ℕ) (id : ℕ)
    → holds (unexpired table live) id ≡ (holds table id && holds live id)
unfolding unexpired
holds-unexpired [] live id = refl
holds-unexpired (j ∷ rest) live id = ground (arith, holds-unexpired rest live id)

covers-unexpired :
    (table live l : List ℕ)
    → covers table l ≡ true
    → covers live l ≡ true
    → covers (unexpired table live) l ≡ true
covers-unexpired table live [] h k = refl
covers-unexpired table live (j ∷ rest) h k =
    ground (arith, h, k, holds-unexpired table live j, covers-unexpired table live rest)

covers-remove :
    (table l : List ℕ) (id : ℕ) → covers table l ≡ true → covers table (remove l id) ≡ true
unfolding remove
covers-remove table [] id h = refl
covers-remove table (j ∷ rest) id h = ground (arith, h, covers-remove table rest id)

length-remove : (l : List ℕ) (id : ℕ) → holds l id ≡ true → length (remove l id) + 1 ≡ length l
unfolding remove
length-remove [] id h = absurd (ground (arith, h))
length-remove (j ∷ rest) id h = ground (arith, h, length-remove rest id)

holds-append : (xs ys : List ℕ) (id : ℕ) → holds (xs ++ ys) id ≡ (holds xs id || holds ys id)
holds-append [] ys id = refl
holds-append (x ∷ xs) ys id = ground (arith, holds-append xs ys id)

record Inv (c : Client) : Type 0 where
  counted : c.active_sessions ≡ length c.live
  capped : length c.live ≤ max_client_sessions
  registered : (not c.running || covers c.tick_sessions c.live) ≡ true
  accepts : (not c.running || c.accepting || c.accept_retry) ≡ true

on_accept-Inv : (c : Client) (got : Option (ℕ × Bool)) → Inv c → Inv (on_accept c got)
unfolding on_accept
on_accept-Inv c none i = ground arith
on_accept-Inv c (some (id, set_up)) i =
    ground (arith, covers-cons id c.tick_sessions c.live, ==_iff id id)

on_accept_retry-Inv :
    (c : Client) (was_aborted : Bool)
    → (not c.running || not was_aborted) ≡ true
    → Inv c
    → Inv (on_accept_retry c was_aborted)
unfolding on_accept_retry
on_accept_retry-Inv c was_aborted stopped i = ground arith

on_session_destroyed-Inv :
    (c : Client) (id : ℕ) → holds c.live id ≡ true → Inv c → Inv (on_session_destroyed c id)
unfolding on_session_destroyed
on_session_destroyed-Inv c id there i =
    ground (arith, length-remove c.live id there, covers-remove c.tick_sessions c.live id)

do_update_tick-Inv :
    (c : Client) (was_aborted : Bool) → Inv c → Inv (do_update_tick c was_aborted).0
unfolding do_update_tick
do_update_tick-Inv c was_aborted i =
    ground (arith, covers_self c.live, covers-unexpired c.tick_sessions c.live c.live)

stop-Inv : (c : Client) → Inv c → Inv (stop c)
unfolding stop
stop-Inv c i = ground arith

module _ (parity_tuning rto_tuning : CleanPathTuning) where
  on_traffic_timer-Inv :
      (c : Client) (was_aborted : Bool) (tx rx : ℕ) (s : Sample)
      → Inv c
      → Inv (on_traffic_timer parity_tuning rto_tuning c was_aborted tx rx s)
  unfolding on_traffic_timer
  on_traffic_timer-Inv c was_aborted tx rx s i = ground arith

  -- One handler. A timer is cancelled only by `stop`; a session is destroyed once.
  pub data Step : Client → Client → Type 0 where
    accepts : (c : Client) (got : Option (ℕ × Bool)) → c.accepting ≡ true → Step c (on_accept c got)
    retries :
        (c : Client) (was_aborted : Bool)
        → (not c.running || not was_aborted) ≡ true
        → Step c (on_accept_retry c was_aborted)
    ticks : (c : Client) (was_aborted : Bool) → Step c (do_update_tick c was_aborted).0
    destroyed : (c : Client) (id : ℕ) → holds c.live id ≡ true → Step c (on_session_destroyed c id)
    reports :
        (c : Client) (was_aborted : Bool) (tx rx : ℕ) (s : Sample)
        → Step c (on_traffic_timer parity_tuning rto_tuning c was_aborted tx rx s)
    stops : (c : Client) → Step c (stop c)

  -- The client before it listens, with no session.
  abbrev pub Fresh : Client → Type 0
  Fresh c = (c.active_sessions ≡ 0) × (c.live ≡ []) × (c.tick_sessions ≡ [])

  pub data Reach : Client → Type 0 where
    start : (c : Client) → Fresh c → Reach (begin_listening c listening)
    next : (c d : Client) → Reach c → Step c d → Reach d

  begin_listening-Inv : (c : Client) → Fresh c → Inv (begin_listening c listening)
  unfolding begin_listening
  begin_listening-Inv c (none_active, none_live, none_ticked) =
      let e : length c.live ≡ 0 = ap length none_live in
      ground (arith, e, none_active, covers_self c.live, ap (λ l. covers l c.live) none_ticked)

  Step-Inv : (c d : Client) → Step c d → Inv c → Inv d
  Step-Inv _ _ (accepts c got e) i = on_accept-Inv c got i
  Step-Inv _ _ (retries c was_aborted e) i = on_accept_retry-Inv c was_aborted e i
  Step-Inv _ _ (ticks c was_aborted) i = do_update_tick-Inv c was_aborted i
  Step-Inv _ _ (destroyed c id there) i = on_session_destroyed-Inv c id there i
  Step-Inv _ _ (reports c was_aborted tx rx s) i = on_traffic_timer-Inv c was_aborted tx rx s i
  Step-Inv _ _ (stops c) i = stop-Inv c i

  Reach-Inv : (c : Client) → Reach c → Inv c
  Reach-Inv _ (start c fresh) = begin_listening-Inv c fresh
  Reach-Inv d (next c _ reached step) = Step-Inv c d step (Reach-Inv c reached)

  -- However accepts, failures, teardowns and ticks follow one another, the counter of the client is
  -- the number of its live sessions, never above 512, and until it is stopped it accepts or is about
  -- to accept again.
  pub Reach-capped :
      (c : Client)
      → Reach c
      → (c.active_sessions ≡ length c.live)
        × (length c.live ≤ max_client_sessions)
        × ((c.running ≡ false) ⊎ (c.accepting ≡ true) ⊎ (c.accept_retry ≡ true))
  Reach-capped c reached =
      let i = Reach-Inv c reached in (i.counted, i.capped, ground (arith, i.accepts))

  -- While the client runs, a tick is dispatched to exactly the live sessions, and `stop` closes all
  -- of them.
  pub Reach-ticked :
      (c : Client) (id : ℕ)
      → Reach c
      → c.running ≡ true
      → (holds (do_update_tick c false).1 id ≡ holds c.live id)
        × (holds (stop c).closed id ≡ (holds c.closed id || holds c.live id))
  unfolding do_update_tick stop
  Reach-ticked c id reached runs =
      let i = Reach-Inv c reached in
      let registered : covers c.tick_sessions c.live ≡ true = ground (arith, i.registered, runs) in
      let kept = holds-unexpired c.tick_sessions c.live id in
      let there =
        λ (m : holds c.live id ≡ true). covers-holds c.tick_sessions c.live id registered m in
      (
        ground (arith, runs, kept, there),
        ground (arith, kept, there, holds-append c.closed (unexpired c.tick_sessions c.live) id),
      )
