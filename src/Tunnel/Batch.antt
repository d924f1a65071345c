-- ===== src/Tunnel/Batch.antt =====
-- The batches of datagrams between `begin_output_batch` and `end_output_batch` (kcp_tunnel.cpp).
-- What reaches the consumer is kept as the list of all of it; the consumer's exceptions are left out.
use kcp_proxy_cpp.Base.{
  ℕ, ◌+◌, ◌-◌, ◌≡◌, refl, sym, ap, ◌∙◌, Bool, true, false, ltb, ◌==◌, if◌then◌else◌, ◌||◌, List, [],
  ◌∷◌, ◌++◌, append-nil, append_assoc, arith,
}

pub record Output : Type 0 where
  pub batch_depth : ℕ
  -- The first `out_batch_used_` slots of `out_batch_`.
  pub out_batch : List (List ℕ)
  -- What `handle_kcp_output` was called with, in order.
  pub sent : List (List ℕ)

abbrev pub output_init : Output
output_init = record { batch_depth = 0; out_batch = []; sent = [] }

unfoldable pub begin_output_batch : Output → Output
begin_output_batch o = record o { batch_depth = o.batch_depth + 1 }

unfoldable pub emit_output : Output → List ℕ → Output
emit_output o datagram =
    if o.batch_depth == 0
    then record o { sent = o.sent ++ (datagram ∷ []) }
    else record o { out_batch = o.out_batch ++ (datagram ∷ []) }

abbrev pub is_empty_batch : List (List ℕ) → Bool
is_empty_batch [] = true
is_empty_batch (x ∷ xs) = false

-- With the default `handle_kcp_output_batch`, which sends the datagrams one by one.
unfoldable pub end_output_batch : Output → Output
end_output_batch o =
    let depth = if ltb 0 o.batch_depth then o.batch_depth - 1 else o.batch_depth in
    if ltb 0 depth || is_empty_batch o.out_batch
    then record o { batch_depth = depth }
    else record { batch_depth = depth; out_batch = []; sent = o.sent ++ o.out_batch }

pub data Call : Type 0 where
  begins ends : Call
  emits : List ℕ → Call

abbrev pub call : Output → Call → Output
call o begins = begin_output_batch o
call o ends = end_output_batch o
call o (emits datagram) = emit_output o datagram

empty_batch : (xs : List (List ℕ)) → is_empty_batch xs ≡ true → xs ≡ []
empty_batch [] e = refl
empty_batch (x ∷ xs) e = absurd (ground arith)

-- The state after these calls, the last of them first.
abbrev pub after : List Call → Output
after [] = output_init
after (c ∷ earlier) = call (after earlier) c

abbrev pub emitted : List Call → List (List ℕ)
emitted [] = []
emitted (begins ∷ earlier) = emitted earlier
emitted (ends ∷ earlier) = emitted earlier
emitted (emits datagram ∷ earlier) = emitted earlier ++ (datagram ∷ [])

-- Outside a batch nothing waits.
pub after_flushed :
    (calls : List Call) → (after calls).batch_depth ≡ 0 → (after calls).out_batch ≡ []
unfolding begin_output_batch emit_output end_output_batch
after_flushed [] outside = refl
after_flushed (begins ∷ earlier) outside = absurd (omega arith)
after_flushed (ends ∷ earlier) outside =
    ground (arith, outside, after_flushed earlier, empty_batch (after earlier).out_batch)
after_flushed (emits datagram ∷ earlier) outside = ground (arith, outside, after_flushed earlier)

after_kept : (calls : List Call) → (after calls).sent ++ (after calls).out_batch ≡ emitted calls
unfolding begin_output_batch emit_output end_output_batch
after_kept [] = refl
after_kept (begins ∷ earlier) = after_kept earlier
after_kept (ends ∷ earlier) =
    ground
      (arith, after_kept earlier, append-nil ((after earlier).sent ++ (after earlier).out_batch))
after_kept (emits datagram ∷ earlier) = ground (
  arith,
  after_kept earlier,
  after_flushed earlier,
  append-nil ((after earlier).sent ++ (datagram ∷ [])),
  append-nil (after earlier).sent,
  append_assoc (after earlier).sent (after earlier).out_batch (datagram ∷ []),
)

-- Whatever the calls and however the batches nest: outside a batch, the consumer has been
-- handed every datagram that was emitted, in the order of emission.
pub after-sent :
    (calls : List Call) → (after calls).batch_depth ≡ 0 → (after calls).sent ≡ emitted calls
after-sent calls outside =
    sym (append-nil (after calls).sent)
    ∙ ap (λ b. (after calls).sent ++ b) (sym (after_flushed calls outside))
    ∙ after_kept calls
