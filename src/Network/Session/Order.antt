-- ===== src/Network/Session/Order.antt =====
-- Messages are handed to writes in the order in which they were sent, one at a time.
use iot_dashboard_flutter.Common.{
  ◌+◌, ◌≤◌, ◌<◌, Bool, true, false, is_empty, [], ◌∷◌, ◌++◌, map, take, length, none, some, Str,
  ◌≡◌, refl, ap, sym, ◌∙◌, arith, inl, inr, Bool-cases,
}
use mathlib.Core.List.{append_assoc, append-nil, map-append}
use iot_dashboard_flutter.Network.PubSub.{ConnectionId}
use iot_dashboard_flutter.Network.Session.{WsSession, Buffer, new_session, send, do_write, on_write}
use iot_dashboard_flutter.Network.Session.Wire.{
  Connection, fresh, posted, sends, starts, completes, fails, Step, send_step, start_step,
  complete_step, fail_step, Reach, here, next, in_sizes, in_count,
}

-- What was accepted has been handed over or is queued, in this order. While no write has failed, the
-- writes done and the one in flight have the sizes of the messages handed over, and one call or one write
-- is under way exactly while `writing` is set, which it is while the queue is not empty.
pub record IsOrderly (c : Connection) : Type 0 where
  pub order : c.accepted ≡ c.handed ++ c.session.write_queue
  pub sizes : c.failed ≡ false → map length c.handed ≡ map length c.written ++ in_sizes c.in_flight
  pub under_way : c.failed ≡ false → c.pending + in_count c.in_flight ≡ posted c.session.writing
  pub no_more : c.pending + in_count c.in_flight ≤ 1
  pub busy : is_empty c.session.write_queue ≡ false → c.session.writing ≡ true
  pub dead : c.failed ≡ true → c.pending + in_count c.in_flight ≡ 0 × c.session.writing ≡ true

send-queue :
    (message : Str) (s : WsSession) → (send message s).0.write_queue ≡ s.write_queue ++ message ∷ []
unfolding send
send-queue message s = ground arith

on_write-queue : (e : Bool) (s : WsSession) → (on_write e s).0.write_queue ≡ s.write_queue
unfolding on_write
on_write-queue e s = ground arith

do_write-queue :
    (s : WsSession) → take 1 s.write_queue ++ (do_write s).0.write_queue ≡ s.write_queue
unfolding do_write
do_write-queue s = ground arith

do_write-sizes : (s : WsSession) → map length (take 1 s.write_queue) ≡ in_sizes (do_write s).1
unfolding do_write
do_write-sizes s = ground arith

sends-order :
    (message : Str) (c : Connection)
    → c.accepted ≡ c.handed ++ c.session.write_queue
    → c.accepted ++ message ∷ [] ≡ c.handed ++ (send message c.session).0.write_queue
sends-order message c order = cc (
  order,
  append_assoc c.handed c.session.write_queue (message ∷ []),
  send-queue message c.session,
)

starts-order :
    (c : Connection)
    → c.accepted ≡ c.handed ++ c.session.write_queue
    → c.accepted ≡ (c.handed ++ take 1 c.session.write_queue) ++ (do_write c.session).0.write_queue
starts-order c order = cc (
  order,
  append_assoc c.handed (take 1 c.session.write_queue) (do_write c.session).0.write_queue,
  do_write-queue c.session,
)

starts-sizes :
    (c : Connection)
    → c.in_flight ≡ none
    → map length c.handed ≡ map length c.written ++ in_sizes c.in_flight
    → map length (c.handed ++ take 1 c.session.write_queue)
      ≡ map length c.written ++ in_sizes (do_write c.session).1
starts-sizes c free sizes = cc (
  sizes,
  free,
  append-nil (map length c.written),
  map-append length c.handed (take 1 c.session.write_queue),
  do_write-sizes c.session,
)

completes-sizes :
    (buffer : Buffer) (bytes : Str) (c : Connection)
    → c.in_flight ≡ some buffer
    → length bytes ≡ buffer.size
    → map length c.handed ≡ map length c.written ++ in_sizes c.in_flight
    → map length c.handed ≡ map length (c.written ++ bytes ∷ []) ++ []
completes-sizes buffer bytes c f fits sizes = cc (
  sizes,
  f,
  fits,
  append-nil (map length (c.written ++ bytes ∷ [])),
  map-append length c.written (bytes ∷ []),
)

-- While a write is in flight nothing else is under way.
flight_lem :
    (buffer : Buffer) (c : Connection)
    → c.in_flight ≡ some buffer
    → IsOrderly c
    → c.pending ≡ 0 × c.session.writing ≡ true
flight_lem buffer c f o = elim (Bool-cases c.failed) [
  | inl dead ↦ ground (arith, o.dead dead, f)
  | inr alive ↦ ground (arith, o.under_way alive, o.no_more, f)
]

sends-IsOrderly : (message : Str) (c : Connection) → IsOrderly c → IsOrderly (sends message c)
unfolding sends send
sends-IsOrderly message c o = elim (Bool-cases c.session.writing) [
  | inl writing ↦ record {
    order = sends-order message c o.order;
    sizes = λ h. o.sizes h;
    under_way = λ h. ground (arith, o.under_way h, writing);
    no_more = ground (arith, o.no_more, writing);
    busy = λ h. ground (arith, writing);
    dead = λ h. ground (arith, o.dead h, writing);
  }
  | inr idle ↦ record {
    order = sends-order message c o.order;
    sizes = λ h. o.sizes h;
    under_way = λ h. ground (arith, o.under_way h, idle);
    no_more = elim (Bool-cases c.failed) [
      | inl dead ↦ ground (arith, o.dead dead, idle)
      | inr alive ↦ ground (arith, o.under_way alive, idle)
    ];
    busy = λ h. ground (arith, idle);
    dead = λ h. ground (arith, o.dead h, idle);
  }
]

pub starts-IsOrderly : (c : Connection) → 0 < c.pending → IsOrderly c → IsOrderly (starts c)
unfolding starts do_write
starts-IsOrderly c p o = record {
  order = starts-order c o.order;
  sizes = λ h. starts-sizes c (ground (arith, o.no_more)) (o.sizes h);
  under_way = λ h. ground (arith, o.under_way h, o.no_more, o.busy);
  no_more = ground (arith, o.no_more);
  busy = λ h. ground (arith, o.busy);
  dead = λ h. ground (arith, o.dead h, o.no_more);
}

pub completes-IsOrderly :
    (buffer : Buffer) (bytes : Str) (c : Connection)
    → c.in_flight ≡ some buffer
    → length bytes ≡ buffer.size
    → IsOrderly c
    → IsOrderly (completes bytes c)
unfolding completes on_write
completes-IsOrderly buffer bytes c f fits o = record {
  order = o.order ∙ ap (λ q. c.handed ++ q) (sym (on_write-queue false c.session));
  sizes = λ h. completes-sizes buffer bytes c f fits (o.sizes h);
  under_way = λ h. ground (arith, o.under_way h, o.no_more, f);
  no_more = ground (arith, o.no_more, f);
  busy = λ h. ground (arith, o.busy);
  dead = λ h. ground (arith, o.dead h, f);
}

fails-IsOrderly :
    (buffer : Buffer) (c : Connection)
    → c.in_flight ≡ some buffer
    → IsOrderly c
    → IsOrderly (fails c)
unfolding fails on_write
fails-IsOrderly buffer c f o = record {
  order = o.order;
  sizes = λ h. cc h;
  under_way = λ h. cc h;
  no_more = ground (arith, o.no_more, f);
  busy = λ h. o.busy h;
  dead = λ h. ground (arith, flight_lem buffer c f o);
}

Step-IsOrderly : {c d : Connection} → Step c d → IsOrderly c → IsOrderly d
Step-IsOrderly (send_step message c) o = sends-IsOrderly message c o
Step-IsOrderly (start_step c p) o = starts-IsOrderly c p o
Step-IsOrderly (complete_step buffer bytes c f fits) o = completes-IsOrderly buffer bytes c f fits o
Step-IsOrderly (fail_step buffer c f) o = fails-IsOrderly buffer c f o

pub fresh-IsOrderly : (id : ConnectionId) → IsOrderly (fresh id)
unfolding fresh new_session
fresh-IsOrderly id = record {
  order = refl;
  sizes = λ h. refl;
  under_way = λ h. refl;
  no_more = omega arith;
  busy = λ h. cc h;
  dead = λ h. cc h;
}

pub Reach-IsOrderly : {c d : Connection} → Reach c d → IsOrderly c → IsOrderly d
Reach-IsOrderly here o = o
Reach-IsOrderly (next r st) o = Step-IsOrderly st (Reach-IsOrderly r o)

-- Whatever the interleaving of senders, writes and failures, the connection never has more than one
-- call of DoWrite or write under way; the messages accepted are those that DoWrite has handed to a write,
-- then the queue, each once and in order; and as long as no write has failed, the writes done and the one
-- in flight are one for each message handed over, in the same order and of the same size. Their bytes are
-- not said to be the messages': a write reads memory that DoWrite has freed.
pub Reach-in_order :
    (id : ConnectionId) (c : Connection)
    → Reach (fresh id) c
    → (c.accepted ≡ c.handed ++ c.session.write_queue)
      × (c.failed ≡ false → map length c.handed ≡ map length c.written ++ in_sizes c.in_flight)
      × c.pending + in_count c.in_flight ≤ 1
Reach-in_order id c r =
    let o = Reach-IsOrderly r (fresh-IsOrderly id) in (o.order, o.sizes, o.no_more)
