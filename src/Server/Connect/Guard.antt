-- ===== src/Server/Connect/Guard.antt =====
-- What the server does for one CONNECT request, in every order of the completions (server.cpp).
use kcp_proxy_cpp.Base.{
  ℕ, ◌+◌, ◌≡◌, refl, ◌∙◌, Bool, true, false, not, ◌&&◌, ◌||◌, if◌then◌else◌, ◌==◌, List, [], ◌∷◌,
  ◌++◌, length, Option, none, some, arith,
}
use kcp_proxy_cpp.Address.{Asio, IpAddress}
use kcp_proxy_cpp.Address.Restricted.{AsioClasses}
use kcp_proxy_cpp.Socks5.{Socks5Request}
use kcp_proxy_cpp.Server.Connect.{
  Action, resolves, connects, replies, closes, handshake_done, writes, forwards, Connect, Connected,
  refused_with, connected_from, is_target_allowed, any_restricted, is_restricted_literal, act, fail,
  handle_connect_command, on_deadline, on_resolved, start_forwarding, on_connect_ok,
  on_connect_failed, on_payload_written, on_connected, reply_succeeded,
}

module _ (asio : Asio) (classes : AsioClasses) (allowed_targets : List (List ℕ)) where
  -- One completion. That of the write of the payload comes only after a write was started.
  pub data Step : Connect → Connect → Type 0 where
    deadline_ends :
        (c : Connect) (was_aborted : Bool)
        → Step c (on_deadline asio classes allowed_targets c was_aborted)
    resolved :
        (c : Connect) (results : Option (List IpAddress))
        → Step c (on_resolved asio classes allowed_targets c results)
    connected :
        (c : Connect) (got : Connected) (still_registered : Bool)
        → Step c (on_connected asio classes allowed_targets c got still_registered)
    written :
        (c : Connect) (write_failed still_registered : Bool)
        → c.fired ≡ true
        → Step c (on_payload_written asio classes allowed_targets c write_failed still_registered)

  -- The states that the handling of a request reaches.
  pub data Reach (r : Socks5Request) : Connect → Type 0 where
    start : Reach r (handle_connect_command asio classes allowed_targets r)
    next : (c d : Connect) → Reach r c → Step c d → Reach r d

  -- May the server turn to these endpoints for this request?
  abbrev pub permitted : Socks5Request → List IpAddress → Bool
  permitted r endpoints =
      not (any_restricted asio classes allowed_targets endpoints)
      || is_target_allowed asio classes allowed_targets r

  abbrev permitted_action : Socks5Request → Action → Bool
  permitted_action r (connects endpoints) = permitted r endpoints
  permitted_action r resolves =
      not (is_restricted_literal asio classes allowed_targets r)
      || is_target_allowed asio classes allowed_targets r
  permitted_action r _ = true

  abbrev pub all_permitted : Socks5Request → List Action → Bool
  all_permitted r [] = true
  all_permitted r (a ∷ rest) = permitted_action r a && all_permitted r rest

  abbrev pub count_replies : List Action → ℕ
  count_replies [] = 0
  count_replies (replies code host port ∷ rest) = 1 + count_replies rest
  count_replies (_ ∷ rest) = count_replies rest

  all_permitted-append :
      (r : Socks5Request) (xs ys : List Action)
      → all_permitted r (xs ++ ys) ≡ (all_permitted r xs && all_permitted r ys)
  all_permitted-append r [] ys = refl
  all_permitted-append r (x ∷ xs) ys = ground (arith, all_permitted-append r xs ys)

  count_replies-append :
      (xs ys : List Action) → count_replies (xs ++ ys) ≡ count_replies xs + count_replies ys
  count_replies-append [] ys = omega arith
  count_replies-append (x ∷ xs) ys = ground (arith, count_replies-append xs ys)

  record Inv (r : Socks5Request) (c : Connect) : Type 0 where
    same : c.request ≡ r
    guarded : all_permitted r c.actions ≡ true
    answered : count_replies c.actions ≡ (if c.fired then 1 else 0)

  -- What further actions do to it.
  act-Inv :
      (r : Socks5Request) (c : Connect) (more : List Action)
      → c.request ≡ r
      → all_permitted r c.actions ≡ true
      → all_permitted r more ≡ true
      → count_replies c.actions + count_replies more ≡ (if c.fired then 1 else 0)
      → Inv r (act asio classes allowed_targets c more)
  unfolding act
  act-Inv r c more same before after count = record {
    same = same;
    guarded = ground (arith, before, after, all_permitted-append r c.actions more);
    answered = count_replies-append c.actions more ∙ count;
  }

  fail-Inv :
      (r : Socks5Request) (c : Connect) (code : ℕ)
      → Inv r c
      → c.fired ≡ false
      → Inv r (fail asio classes allowed_targets c code)
  unfolding fail
  fail-Inv r c code i waiting =
      act-Inv r (record c { fired = true; deadline = false }) (replies code [] 0 ∷ closes ∷ [])
        i.same i.guarded refl (ground (arith, i.answered, waiting))

  ite-Inv :
      (r : Socks5Request) (b : Bool) (c d : Connect)
      → (b ≡ true → Inv r c)
      → (b ≡ false → Inv r d)
      → Inv r (if b then c else d)
  ite-Inv r true c d i j = i refl
  ite-Inv r false c d i j = j refl

  start-Inv : (r : Socks5Request) → Inv r (handle_connect_command asio classes allowed_targets r)
  unfolding handle_connect_command
  start-Inv r =
      let c : Connect = record { request = r; fired = false; deadline = true; actions = [] } in
      let fresh : Inv r c = record { same = refl; guarded = refl; answered = refl } in
      let blocked =
        is_restricted_literal asio classes allowed_targets r
        && not (is_target_allowed asio classes allowed_targets r) in
      ite-Inv r blocked _ _ (λ e. fail-Inv r c 2 fresh refl)
        (λ e. act-Inv r c (resolves ∷ []) refl refl (ground (arith, e)) (ground arith))

  resolved-Inv :
      (r : Socks5Request) (c : Connect) (results : Option (List IpAddress))
      → Inv r c
      → Inv r (on_resolved asio classes allowed_targets c results)
  unfolding on_resolved
  resolved-Inv r c none i = ite-Inv r c.fired c _ (λ e. i) (λ e. fail-Inv r c 4 i e)
  resolved-Inv r c (some endpoints) i =
      let blocked =
        any_restricted asio classes allowed_targets endpoints
        && not (is_target_allowed asio classes allowed_targets c.request) in
      let refused = fail asio classes allowed_targets c 2 in
      let going = act asio classes allowed_targets c (connects endpoints ∷ []) in
      ite-Inv r c.fired c (if blocked then refused else going) (λ e. i)
        (λ e.
          ite-Inv r blocked refused going (λ f. fail-Inv r c 2 i e)
            (λ f.
              act-Inv r c (connects endpoints ∷ []) i.same i.guarded (ground (arith, f, i.same))
                (ground (arith, i.answered))))

  forward-Inv :
      (r : Socks5Request) (c : Connect) (still : Bool)
      → Inv r c
      → Inv r (start_forwarding asio classes allowed_targets c still)
  unfolding start_forwarding
  forward-Inv r c still i =
      ite-Inv r still _ c
        (λ e. act-Inv r c (forwards ∷ []) i.same i.guarded refl (ground (arith, i.answered)))
        (λ e. i)

  connected-Inv :
      (r : Socks5Request) (c : Connect) (got : Connected) (still : Bool)
      → Inv r c
      → Inv r (on_connected asio classes allowed_targets c got still)
  unfolding on_connected on_connect_ok on_connect_failed
  connected-Inv r c (refused_with e) still i =
      ite-Inv r c.fired c _ (λ f. i) (λ f. fail-Inv r c _ i f)
  connected-Inv r c (connected_from host port) still i =
      let c1 = record c { fired = true; deadline = false } in
      let done = replies reply_succeeded host port ∷ handshake_done ∷ [] in
      let told = act asio classes allowed_targets c1 done in
      let told_inv : c.fired ≡ false → Inv r told =
        λ e. act-Inv r c1 done i.same i.guarded refl (ground (arith, e, i.answered)) in
      let writing = act asio classes allowed_targets told (writes c.request.initial_payload ∷ []) in
      let forwarding = start_forwarding asio classes allowed_targets told still in
      let empty = length c.request.initial_payload == 0 in
      ite-Inv r c.fired c (if empty then forwarding else writing) (λ e. i)
        (λ e.
          ite-Inv r empty forwarding writing (λ f. forward-Inv r told still (told_inv e))
            (λ f.
              act-Inv r told (writes c.request.initial_payload ∷ []) (told_inv e).same
                (told_inv e).guarded refl (ground (arith, (told_inv e).answered))))

  deadline-Inv :
      (r : Socks5Request) (c : Connect) (was_aborted : Bool)
      → Inv r c
      → Inv r (on_deadline asio classes allowed_targets c was_aborted)
  unfolding on_deadline
  deadline-Inv r c was_aborted i =
      let late = replies 6 [] 0 ∷ closes ∷ [] in
      let told = act asio classes allowed_targets (record c { fired = true }) late in
      ite-Inv r was_aborted c (if c.fired then c else told) (λ e. i)
        (λ e.
          ite-Inv r c.fired c told (λ f. i)
            (λ f.
              act-Inv r (record c { fired = true }) late i.same i.guarded refl
                (ground (arith, f, i.answered))))

  written-Inv :
      (r : Socks5Request) (c : Connect) (write_failed still : Bool)
      → Inv r c
      → Inv r (on_payload_written asio classes allowed_targets c write_failed still)
  unfolding on_payload_written
  written-Inv r c write_failed still i =
      ite-Inv r write_failed _ _
        (λ e. act-Inv r c (closes ∷ []) i.same i.guarded refl (ground (arith, i.answered)))
        (λ e. forward-Inv r c still i)

  Step-Inv : (r : Socks5Request) (c d : Connect) → Step c d → Inv r c → Inv r d
  Step-Inv r c d (deadline_ends _ b) i = deadline-Inv r c b i
  Step-Inv r c d (resolved _ results) i = resolved-Inv r c results i
  Step-Inv r c d (connected _ got still) i = connected-Inv r c got still i
  Step-Inv r c d (written _ w still fired) i = written-Inv r c w still i

  Reach-Inv : (r : Socks5Request) (c : Connect) → Reach r c → Inv r c
  Reach-Inv r c start = start-Inv r
  Reach-Inv r c (next b _ before step) = Step-Inv r b c step (Reach-Inv r b before)

  -- However they race, the client gets at most one answer to its request, exactly one once the
  -- attempt is decided, and it is decided at the latest by the deadline.
  pub Reach-answered :
      (r : Socks5Request) (c : Connect)
      → Reach r c
      → (count_replies c.actions ≡ (if c.fired then 1 else 0))
        × (count_replies (on_deadline asio classes allowed_targets c false).actions ≡ 1)
  unfolding on_deadline
  Reach-answered r c run =
      let i = Reach-Inv r c run in
      let j = deadline-Inv r c false i in (i.answered, j.answered ∙ ground arith)
