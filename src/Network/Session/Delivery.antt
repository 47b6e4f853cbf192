-- ===== src/Network/Session/Delivery.antt =====
-- The queue of a connection always empties.
use iot_dashboard_flutter.Common.{
  ℕ, zero, suc, ◌<◌, false, List, [], ◌∷◌, map, length, none, some, Str, ◌≡◌, refl, ap, ◌∙◌, arith,
  ◌⊎◌, inl, inr, Option-cases,
}
use mathlib.Core.List.{append-nil}
use iot_dashboard_flutter.Network.PubSub.{ConnectionId}
use iot_dashboard_flutter.Network.Session.{WsSession, Buffer, do_write, writes_on, on_write}
use iot_dashboard_flutter.Network.Session.Wire.{
  Connection, fresh, starts, completes, Step, start_step, complete_step, Reach, here, next,
}
use iot_dashboard_flutter.Network.Session.Order.{
  IsOrderly, starts-IsOrderly, completes-IsOrderly, fresh-IsOrderly, Reach-IsOrderly,
}

Reach-trans : {c d e : Connection} → Reach c d → Reach d e → Reach c e
Reach-trans r here = r
Reach-trans r (next s st) = next (Reach-trans r s) st

-- A state that follows, where all that was accepted has been handed to a write, in order, each write has
-- sent as much as its message has, and nothing is under way.
pub record IsDelivered (c d : Connection) : Type 0 where
  pub reached : Reach c d
  pub all_handed : d.handed ≡ c.accepted
  pub all_written : map length d.written ≡ map length c.accepted
  pub no_failure : d.failed ≡ false
  pub idle : d.session.writing ≡ false
  pub emptied : d.session.write_queue ≡ []

first-Step :
    {b c d : Connection} → Step b c → c.accepted ≡ b.accepted → IsDelivered c d → IsDelivered b d
first-Step st same i = record {
  reached = Reach-trans (next here st) i.reached;
  all_handed = i.all_handed ∙ same;
  all_written = i.all_written ∙ ap (map length) same;
  no_failure = i.no_failure;
  idle = i.idle;
  emptied = i.emptied;
}

length-empty : (xs : List Str) → length xs ≡ 0 → xs ≡ []
length-empty [] h = refl
length-empty (x ∷ xs) h = absurd (omega arith)

length-more :
    (xs : List Str) (n : ℕ)
    → length xs ≡ suc n
    → (y : Str) × (ys : List Str) × (xs ≡ y ∷ ys) × (length ys ≡ n)
length-more [] n h = absurd (omega arith)
length-more (x ∷ xs) n h = (x, xs, refl, omega arith)

on_write-empty :
    (s : WsSession)
    → s.write_queue ≡ []
    → (on_write false s).0.writing ≡ false × (on_write false s).0.write_queue ≡ []
unfolding on_write
on_write-empty s e = ground (arith, e)

on_write-more :
    (s : WsSession) (y : Str) (ys : List Str)
    → s.write_queue ≡ y ∷ ys
    → on_write false s ≡ (s, writes_on)
unfolding on_write
on_write-more s y ys e = rw (e)

do_write-more :
    (s : WsSession) (y : Str) (ys : List Str)
    → s.write_queue ≡ y ∷ ys
    → (do_write s).1 ≡ some (record { size = length y }) × (do_write s).0.write_queue ≡ ys
unfolding do_write
do_write-more s y ys e = ground (arith, e)

do_write-empty :
    (s : WsSession)
    → s.write_queue ≡ []
    → (do_write s).0.writing ≡ false × (do_write s).0.write_queue ≡ [] × (do_write s).1 ≡ none
unfolding do_write
do_write-empty s e = ground (arith, e)

List-cases : (xs : List Str) → (xs ≡ []) ⊎ ((y : Str) × (ys : List Str) × (xs ≡ y ∷ ys))
List-cases [] = inl refl
List-cases (y ∷ ys) = inr (y, ys, refl)

-- Where nothing is under way and the queue is empty, all is delivered.
delivered :
    (c : Connection)
    → c.in_flight ≡ none
    → c.session.writing ≡ false
    → c.session.write_queue ≡ []
    → c.failed ≡ false
    → IsOrderly c
    → IsDelivered c c
delivered c free idle e alive o =
    let all : c.handed ≡ c.accepted = cc (o.order, e, append-nil c.handed) in
    record {
      reached = here;
      all_handed = all;
      all_written =
          cc (o.sizes alive, free, append-nil (map length c.written), ap (map length) all);
      no_failure = alive;
      idle = idle;
      emptied = e;
    }

Nat-cases : (n : ℕ) → (n ≡ 0) ⊎ (0 < n)
Nat-cases zero = inl refl
Nat-cases (suc n) = inr (omega arith)

-- `sent` is what the write of a buffer sends.
module _ (sent : Buffer → Str) (fits : (buffer : Buffer) → length (sent buffer) ≡ buffer.size) where
  delivers_flight :
      (n : ℕ) (buffer : Buffer) (c : Connection)
      → length c.session.write_queue ≡ n
      → c.in_flight ≡ some buffer
      → c.failed ≡ false
      → IsOrderly c
      → (d : Connection) × IsDelivered c d
  unfolding completes starts
  delivers_flight zero buffer c size f alive o =
      let e = length-empty c.session.write_queue size in
      let after = on_write-empty c.session e in
      let done = completes (sent buffer) c in
      let o₁ = completes-IsOrderly buffer (sent buffer) c f (fits buffer) o in
      (
        done,
        first-Step (complete_step buffer (sent buffer) c f (fits buffer)) refl
            (delivered done refl after.0 after.1 alive o₁),
      )
  delivers_flight (suc n) buffer c size f alive o =
      let bytes = sent buffer in
      let (y, ys, e, rest_size) = length-more c.session.write_queue n size in
      let same = on_write-more c.session y ys e in
      let called : 0 < (completes bytes c).pending = ground (arith, same) in
      let queued : (completes bytes c).session.write_queue ≡ y ∷ ys = cc (same, e) in
      let (started, left) = do_write-more (completes bytes c).session y ys queued in
      let o₁ = completes-IsOrderly buffer bytes c f (fits buffer) o in
      let o₂ = starts-IsOrderly (completes bytes c) called o₁ in
      let rest =
        delivers_flight n (record { size = length y }) (starts (completes bytes c))
          (ap length left ∙ rest_size) started alive o₂ in
      (
        rest.0,
        first-Step (complete_step buffer bytes c f (fits buffer)) refl
            (first-Step (start_step (completes bytes c) called) refl rest.1),
      )

  delivers_call :
      (c : Connection)
      → 0 < c.pending
      → c.failed ≡ false
      → IsOrderly c
      → (d : Connection) × IsDelivered c d
  unfolding starts
  delivers_call c called alive o =
      let o₁ = starts-IsOrderly c called o in
      elim (List-cases c.session.write_queue) [
        | inl e ↦
            let after = do_write-empty c.session e in
            (
              starts c,
              first-Step (start_step c called) refl
                  (delivered (starts c) after.2 after.0 after.1 alive o₁),
            )
        | inr (y, ys, e) ↦
            let (started, left) = do_write-more c.session y ys e in
            let rest =
              delivers_flight (length ys) (record { size = length y }) (starts c) (ap length left)
                started alive o₁ in
            (rest.0, first-Step (start_step c called) refl rest.1)
      ]

  delivers_idle :
      (c : Connection)
      → c.pending ≡ 0
      → c.in_flight ≡ none
      → c.failed ≡ false
      → IsOrderly c
      → IsDelivered c c
  delivers_idle c none_pending free alive o =
      let idle : c.session.writing ≡ false =
        ground (arith, o.under_way alive, none_pending, free) in
      let e : c.session.write_queue ≡ [] = elim (List-cases c.session.write_queue) [
        | inl e ↦ e
        | inr (y, ys, e) ↦ absurd (ground (arith, o.busy, e, idle))
      ] in
      delivered c free idle e alive o

  -- No message is stuck: from every state that a connection can reach without a failed write, and
  -- whatever bytes the writes then send, completing the writes that are under way leads to a state where
  -- everything accepted has been handed to a write, in order, each write has sent as many bytes as its
  -- message has, and nothing is queued. That the bytes are the message's is not said: a write reads
  -- memory that DoWrite has freed.
  pub Reach-delivers :
      (id : ConnectionId) (c : Connection)
      → Reach (fresh id) c
      → c.failed ≡ false
      → (d : Connection) × IsDelivered c d
  Reach-delivers id c r alive =
      let o = Reach-IsOrderly r (fresh-IsOrderly id) in
      elim (Option-cases c.in_flight) [
        | inr (buffer, f) ↦ delivers_flight (length c.session.write_queue) buffer c refl f alive o
        | inl free ↦ elim (Nat-cases c.pending) [
          | inl none_pending ↦ (c, delivers_idle c none_pending free alive o)
          | inr called ↦ delivers_call c called alive o
        ]
      ]
