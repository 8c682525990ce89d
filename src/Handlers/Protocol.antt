-- ===== src/Handlers/Protocol.antt =====
-- The statuses that the workers of src/handlers/ push.
use mathlib.Core.Option.{some_inj}
use wind_breaker.Prelude.{if◌then◌else◌, arith, ◌≡◌, subst, Bool, true, false, some}
use wind_breaker.Prelude.Fault.{>>=-eq-some}
use wind_breaker.Buffer.{Buffer}
use wind_breaker.Static.{Connection}
use wind_breaker.Session.Word.{
  WorkStatus, initial, request_read, processing, initial_ssl, parsed, data_fetched, ready_to_send,
  send_failed, sent, rejected,
}
use wind_breaker.Parser.{parse_round}
use wind_breaker.Loader.{load_round}
use wind_breaker.Builder.{build_round}
use wind_breaker.Socket.Calls.{send_ssl, send_bio}
use wind_breaker.Sender.{Attempt, after_send}
use wind_breaker.Handlers.{
  Worker, parser, loader, builder, sender, World, Objects, Done, parse_session, load_session,
  build_session, send_session, body,
}

-- The statuses that follow the stage of a worker.
pub data Follows : Worker → WorkStatus → Type 0 where
  to_loader : Follows parser parsed
  to_builder : Follows loader data_fetched
  to_sender : Follows builder ready_to_send
  sends_more : Follows sender ready_to_send
  sends_later : Follows sender send_failed
  is_sent : Follows sender sent
  gives_up : Follows sender rejected

abbrev Goes : Worker → Done → Type 0
Goes k d = Follows k d.0

-- The statuses that the sender pushes, as a test.
is_sending : WorkStatus → Bool
is_sending ready_to_send = true
is_sending send_failed = true
is_sending sent = true
is_sending rejected = true
is_sending _ = false

is_sending-Follows : (w : WorkStatus) → is_sending w ≡ true → Follows sender w
unfolding is_sending
is_sending-Follows ready_to_send h = sends_more
is_sending-Follows send_failed h = sends_later
is_sending-Follows sent h = is_sent
is_sending-Follows rejected h = gives_up
is_sending-Follows initial h = cc
is_sending-Follows request_read h = cc
is_sending-Follows parsed h = cc
is_sending-Follows data_fetched h = cc
is_sending-Follows processing h = cc
is_sending-Follows initial_ssl h = cc

after_send-sending :
    (a : Attempt) (c : Connection) (b : Buffer) → is_sending (after_send a c b).0 ≡ true
unfolding after_send is_sending
after_send-sending a c b = ground arith

-- A worker that finishes its session gives it a status that follows its stage.
pub body-Follows :
    (wd : World) (k : Worker) (own : Buffer) (x : Objects) {d : Done}
    → body wd k own x ≡ some d
    → Follows k d.0
unfolding body parse_session load_session build_session send_session
body-Follows wd parser own x h =
    let (r, _, h') =
      >>=-eq-some (parse_round wd.files wd.library wd.granted wd.behind x.buffer x.request) _ h in
    subst (Goes parser) (some_inj.0 h') to_loader
body-Follows wd loader own x h =
    let (r, _, h') =
      >>=-eq-some (load_round wd.disk wd.memory wd.database x.request x.response (x.buffer, own)) _
        h in
    subst (Goes loader) (some_inj.0 h') to_builder
body-Follows wd builder own x h =
    let (r, _, h') =
      >>=-eq-some (build_round wd.outside wd.memory wd.stack x.request x.response x.buffer own) _
        h in
    subst (Goes builder) (some_inj.0 h') to_sender
body-Follows wd sender own x h =
    let (n, _, h') =
      >>=-eq-some
        (if x.request.is_ssl then send_ssl wd.returned x.buffer else send_bio wd.returned x.buffer)
        _ h in
    subst (Goes sender) (some_inj.0 h')
      (is_sending-Follows _ (after_send-sending _ x.request.connection x.buffer))
