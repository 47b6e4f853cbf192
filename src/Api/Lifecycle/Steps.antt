-- ===== src/Api/Lifecycle/Steps.antt =====
-- Which parts run, over any sequence of starts and stops.
use iot_dashboard_flutter.Common.{
  ◌+◌, Bool, true, false, not, ◌||◌, [], ◌≡◌, refl, sym, ap, ◌∙◌, subst, inl, inr, arith,
  Bool-cases,
}
use iot_dashboard_flutter.Errors.{Error, Result, ok, err, Result-cases}
use iot_dashboard_flutter.Devices.Heartbeat
use iot_dashboard_flutter.Devices.Manager.{DeviceRepository, Mqtt}
use iot_dashboard_flutter.Http.Server
use iot_dashboard_flutter.Http.Server.{HttpServer}
use iot_dashboard_flutter.Network.Acceptor.{Acceptor, listen}
use iot_dashboard_flutter.Network.PubSub.{WsServer}
use iot_dashboard_flutter.Network.PubSub.Running
use iot_dashboard_flutter.Api.Lifecycle.{Link, Application, join, start_http, start, stop}

-- What runs of an application: the monitor, the WebSocket server and the HTTP server.
pub record AllRun {R M C D H S Session : Type 0} (app : Application R M C D H S Session)
    : Type 0 where
  pub monitor_runs : app.monitor.running ≡ true
  pub ws_runs : app.ws_server.running ≡ true
  pub http_runs : app.http_server.running ≡ true

pub record NoneRuns {R M C D H S Session : Type 0} (app : Application R M C D H S Session)
    : Type 0 where
  pub monitor_rests : app.monitor.running ≡ false
  pub ws_rests : app.ws_server.running ≡ false
  pub http_rests : app.http_server.running ≡ false

ws_start-listen :
    {Session : Type 0} (acceptor : Acceptor) (server : WsServer Session)
    → Running.start acceptor server ≡ elim (listen acceptor) [
      | err e ↦ (server, err e)
      | ok u ↦ (record server { running = true }, ok tt)
    ]
unfolding Running.start
ws_start-listen acceptor server = refl

http_start-listen :
    {S : Type 0} (acceptor : Acceptor) (server : HttpServer S)
    → Server.start acceptor server ≡ elim (listen acceptor) [
      | err e ↦ (server, err e)
      | ok u ↦ (
        record server { running = true; threads = server.threads + server.config.thread_count },
        ok tt,
      )
    ]
unfolding Server.start
http_start-listen acceptor server = refl

module _ {R M C D H S Session : Type 0} (store : DeviceRepository R) (client : Mqtt M)
    (link : Link M) where
  -- The applications that a sequence of calls of Start and Stop leads to, and whether a call of Stop
  -- found the application running. No other operation changes what runs.
  pub data Reach (first : Application R M C D H S Session)
      : Bool → Application R M C D H S Session → Type 0 where
    here : Reach first false first
    starts :
        {stopped : Bool} {app next : Application R M C D H S Session}
        → Reach first stopped app
        → (ws http : Acceptor) → next ≡ (start store client link ws http app).0
        → Reach first stopped next
    stops :
        {stopped again : Bool} {app next : Application R M C D H S Session}
        → Reach first stopped app
        → next ≡ (stop link app).0
        → again ≡ (stopped || app.running)
        → Reach first again next

  -- Start, given what the acceptors of the two servers answer.
  outcome :
      Result (Unit {0})
      → Result (Unit {0})
      → Application R M C D H S Session
      → Application R M C D H S Session × Result (Unit {0})
  outcome ws http app =
      let begun : Application R M C D H S Session = record app {
        manager = join store client link app.manager;
        monitor = Heartbeat.start app.monitor;
      } in
      let serving : Application R M C D H S Session = record begun {
        ws_server = record app.ws_server { running = true };
      } in
      elim ws [
        | err e ↦ (begun, err e)
        | ok u ↦ elim http [
          | err e ↦ (serving, err e)
          | ok v ↦ (
            record serving {
              http_server = record app.http_server {
                running = true;
                threads = app.http_server.threads + app.http_server.config.thread_count;
              };
              running = true;
            },
            ok tt,
          )
        ]
      ]

  start_http-refused :
      (http : Acceptor) (app : Application R M C D H S Session) (e : Error)
      → listen http ≡ err e
      → start_http http app ≡ (app, err e)
  unfolding start_http
  start_http-refused http app e refused =
      let s = http_start-listen http app.http_server in
      rw (s, refused, start_http) (rw (s, refused))

  start_http-listens :
      (http : Acceptor) (app : Application R M C D H S Session) (u : Unit {0})
      → listen http ≡ ok u
      → start_http http app ≡ (
        record app {
          http_server = record app.http_server {
            running = true;
            threads = app.http_server.threads + app.http_server.config.thread_count;
          };
          running = true;
        },
        ok tt,
      )
  unfolding start_http
  start_http-listens http app u listens =
      let s = http_start-listen http app.http_server in
      rw (s, listens, start_http) (rw (s, listens))

  start-outcome :
      (ws http : Acceptor) (app : Application R M C D H S Session)
      → start store client link ws http app ≡ outcome (listen ws) (listen http) app
  unfolding start outcome
  start-outcome ws http app =
      let w = ws_start-listen ws app.ws_server in
      let begun : Application R M C D H S Session = record app {
        manager = join store client link app.manager;
        monitor = Heartbeat.start app.monitor;
      } in
      let serving : Application R M C D H S Session = record begun {
        ws_server = record app.ws_server { running = true };
      } in
      elim (Result-cases (listen ws)) [
        | inl (e, refused) ↦ rw (w, refused, start, outcome) (rw (w, refused))
        | inr (u, opened) ↦
            let ws_started : Running.start ws app.ws_server
                ≡ (record app.ws_server { running = true }, ok tt) =
              w ∙ rw opened in
            let replaced =
              ap (λ x. start_http http (record begun { ws_server = x.0 })) ws_started in
            elim (Result-cases (listen http)) [
              | inl (e, refused) ↦
                  rw (w, opened, refused, start, outcome)
                    (replaced ∙ start_http-refused http serving e refused)
              | inr (v, listens) ↦
                  rw (w, opened, listens, start, outcome)
                    (replaced ∙ start_http-listens http serving v listens)
            ]
      ]

  outcome-AllRun :
      (ws http : Result (Unit {0})) (app : Application R M C D H S Session)
      → (app.running ≡ true → AllRun app)
      → (outcome ws http app).0.running ≡ true
      → AllRun (outcome ws http app).0
  unfolding outcome Heartbeat.start
  outcome-AllRun (err e) http app h runs = record {
    monitor_runs = refl;
    ws_runs = (h runs).ws_runs;
    http_runs = (h runs).http_runs;
  }
  outcome-AllRun (ok u) (err e) app h runs = record {
    monitor_runs = refl;
    ws_runs = refl;
    http_runs = (h runs).http_runs;
  }
  outcome-AllRun (ok u) (ok v) app h runs = record {
    monitor_runs = refl;
    ws_runs = refl;
    http_runs = refl;
  }

  outcome-ioc_stopped :
      (ws http : Result (Unit {0})) (app : Application R M C D H S Session)
      → ((outcome ws http app).0.http_server.ioc_stopped ≡ app.http_server.ioc_stopped)
        × ((outcome ws http app).0.ws_server.ioc_stopped ≡ app.ws_server.ioc_stopped)
  unfolding outcome
  outcome-ioc_stopped (err e) http app = (refl, refl)
  outcome-ioc_stopped (ok u) (err e) app = (refl, refl)
  outcome-ioc_stopped (ok u) (ok v) app = (refl, refl)

  stop-NoneRuns :
      (app : Application R M C D H S Session)
      → app.running ≡ true
      → AllRun app
      → NoneRuns (stop link app).0
  unfolding stop Heartbeat.stop Server.stop Running.stop
  stop-NoneRuns app runs all = record {
    monitor_rests = rw (runs, stop);
    ws_rests = rw (runs, stop, all.ws_runs, Running.stop);
    http_rests = rw (runs, stop, all.http_runs, Server.stop);
  }

  -- The contexts are stopped exactly where a call of Stop found the application running.
  record IsTraced (stopped : Bool) (app : Application R M C D H S Session) : Type 0 where
    http_context : app.http_server.ioc_stopped ≡ stopped
    ws_context : app.ws_server.ioc_stopped ≡ stopped
    all_run : app.running ≡ true → AllRun app

  start-IsTraced :
      (stopped : Bool) (ws http : Acceptor) (app : Application R M C D H S Session)
      → IsTraced stopped app
      → IsTraced stopped (start store client link ws http app).0
  start-IsTraced stopped ws http app traced =
      let same = outcome-ioc_stopped (listen ws) (listen http) app in
      subst (λ r. IsTraced stopped r.0) (sym (start-outcome ws http app))
        (record {
          http_context = same.0 ∙ traced.http_context;
          ws_context = same.1 ∙ traced.ws_context;
          all_run = outcome-AllRun (listen ws) (listen http) app traced.all_run;
        })

  stop-IsTraced :
      (stopped again : Bool) (app : Application R M C D H S Session)
      → again ≡ (stopped || app.running)
      → IsTraced stopped app
      → IsTraced again (stop link app).0
  unfolding stop Server.stop Running.stop
  stop-IsTraced stopped again app e traced = elim (Bool-cases app.running) [
    | inl runs ↦
        let all = traced.all_run runs in
        let done : again ≡ true = ground (arith, e, runs) in
        record {
          http_context = rw (runs, stop, all.http_runs, Server.stop) (sym done);
          ws_context = rw (runs, stop, all.ws_runs, Running.stop) (sym done);
          all_run = λ h. let rests = rw (runs, stop) at h in cc;
        }
    | inr rests ↦
        let same : again ≡ stopped = ground (arith, e, rests) in
        subst (λ r. IsTraced again r.0) (sym (stop-rests app rests))
          (subst (λ b. IsTraced b app) (sym same) traced)
  ]
    where
      stop-rests :
          (app : Application R M C D H S Session) → app.running ≡ false → stop link app ≡ (app, [])
      stop-rests app rests = rw (rests, stop)

  Reach-IsTraced :
      {first : Application R M C D H S Session} {stopped : Bool}
      {app : Application R M C D H S Session}
      → Reach first stopped app
      → IsTraced false first
      → IsTraced stopped app
  Reach-IsTraced here new = new
  Reach-IsTraced (starts {stopped = stopped} {app = before} reach ws http e) new =
      subst (IsTraced stopped) (sym e)
        (start-IsTraced stopped ws http before (Reach-IsTraced reach new))
  Reach-IsTraced (stops {stopped = stopped} {again = again} {app = before} reach e done) new =
      subst (IsTraced again) (sym e)
        (stop-IsTraced stopped again before done (Reach-IsTraced reach new))

  -- From an application that does not run and whose servers were never stopped, over any sequence of
  -- starts, whether they succeed or not, and stops: while it says that it runs, the monitor runs, both
  -- servers serve exactly where no stop has found it running before, and a stop then leaves none of the
  -- three running. So an application that is started again after a stop says that it runs and serves
  -- nothing.
  pub Reach-running :
      (first app : Application R M C D H S Session) (stopped : Bool)
      → first.running ≡ false
      → first.http_server.ioc_stopped ≡ false
      → first.ws_server.ioc_stopped ≡ false
      → Reach first stopped app
      → app.running ≡ true
      → (app.monitor.running ≡ true)
        × (Server.serves app.http_server ≡ not stopped)
        × (Running.serves app.ws_server ≡ not stopped)
        × NoneRuns (stop link app).0
  unfolding Server.serves Running.serves
  Reach-running first app stopped rests http ws reach runs =
      let new : IsTraced false first = record {
        http_context = http;
        ws_context = ws;
        all_run = λ h. cc (h, rests);
      } in
      let traced = Reach-IsTraced reach new in
      let all = traced.all_run runs in
      (
        all.monitor_runs,
        rw (all.http_runs, traced.http_context),
        rw (all.ws_runs, traced.ws_context),
        stop-NoneRuns app runs all,
      )

  outcome-err :
      (ws http : Result (Unit {0})) (app : Application R M C D H S Session) (e : Error)
      → (outcome ws http app).1 ≡ err e
      → ((outcome ws http app).0.running ≡ app.running)
        × ((outcome ws http app).0.monitor.running ≡ true)
  unfolding outcome Heartbeat.start
  outcome-err (err d) http app e h = (refl, refl)
  outcome-err (ok u) (err d) app e h = (refl, refl)
  outcome-err (ok u) (ok v) app e h = cc

  -- A start that fails leaves an application that does not run with its monitor running, and a stop does
  -- not change that: it does nothing.
  pub stop-start_failed :
      (ws http : Acceptor) (app : Application R M C D H S Session) (e : Error)
      → app.running ≡ false
      → (start store client link ws http app).1 ≡ err e
      → let failed = (start store client link ws http app).0 in
        (failed.monitor.running ≡ true) × (stop link failed ≡ (failed, []))
  unfolding stop
  stop-start_failed ws http app e new h =
      let same = start-outcome ws http app in
      let (kept, on) = outcome-err (listen ws) (listen http) app e (sym (ap (λ r. r.1) same) ∙ h) in
      let rests : (start store client link ws http app).0.running ≡ false =
        ap (λ r. r.0.running) same ∙ kept ∙ new in
      (ap (λ r. r.0.monitor.running) same ∙ on, rw (rests, stop))
