-- ===== src/Sockets/Run.antt =====
-- The sockets as a list of what reaches the server: handshakes, messages and losses of sockets, the
-- timers, and requests that no socket sends. Each handler runs to its end before the next.
use chatwave_backend.Base.{ℕ, ◌+◌, Bool, Option, none, some, List, [], ◌∷◌}
use chatwave_backend.Base.Text.{Text}
use chatwave_backend.Env.{Env}
use chatwave_backend.Schema.Message.{ReceiptStatus}
use chatwave_backend.Auth.Guard.{Credentials}
use chatwave_backend.Sockets.State.{Socket, SignalEvent, Server, Ack, find_socket}
use chatwave_backend.Sockets.Session.{
  handshake, disconnect, fire_offline, check_offline, fire_hangup, kick_banned,
}
use chatwave_backend.Sockets.Chat.{join, leave, send, set_typing_state, receipt}
use chatwave_backend.Sockets.CallRooms.{join_call, leave_call, share_media, send_signal}

pub data Message : Type 0 where
  join_chat leave_chat : (conversation : ℕ) → Message
  send_message : (conversation : ℕ) (is_text : Bool) (body : Text) (reply : Option ℕ) → Message
  report_typing : (conversation : ℕ) (is_typing : Bool) → Message
  mark_message : (conversation : ℕ) (message : Option ℕ) (kind : ReceiptStatus) → Message
  enter_call leave_call_room : (call : ℕ) → Message
  call_media : (call : ℕ) (muted camera_off : Option Bool) → Message
  webrtc : (call : ℕ) (event : SignalEvent) (to : Option ℕ) → Message

pub data Request : Type 0 where
  arrive : (id : ℕ) (credentials : Credentials) → Request
  lose : (id : ℕ) → Request
  says : (id : ℕ) (message : Message) → Request
  offline_timer offline_check hangup_timer : Request
  kick : (user : ℕ) → Request
  wait : (ms : ℕ) → Request

unfoldable pub on_message : Env → Socket → Message → Server → Ack × Server
on_message env s (join_chat conversation) srv = join env s conversation srv
on_message env s (leave_chat conversation) srv = leave env s conversation srv
on_message env s (send_message conversation is_text body reply) srv =
    send env s conversation is_text body reply srv
on_message env s (report_typing conversation is_typing) srv =
    set_typing_state env s conversation is_typing srv
on_message env s (mark_message conversation message kind) srv =
    receipt env s conversation message kind srv
on_message env s (enter_call call) srv = join_call env s call srv
on_message env s (leave_call_room call) srv = leave_call env s call srv
on_message env s (call_media call muted camera_off) srv =
    share_media env s call muted camera_off srv
on_message env s (webrtc call event to) srv = send_signal env s call event to srv

abbrev pub if_connected : Env → Option Socket → Message → Server → Server
if_connected env none m srv = srv
if_connected env (some s) m srv = (on_message env s m srv).1

abbrev pub elapse : ℕ → Server → Server
elapse ms srv = let w = srv.world in record srv { world = record w { now = w.now + ms } }

unfoldable pub handle : Env → Request → Server → Server
unfolding on_message
handle env (arrive id credentials) srv = handshake env id credentials srv
handle env (lose id) srv = disconnect id srv
handle env (says id m) srv = if_connected env (find_socket id srv) m srv
handle env offline_timer srv = fire_offline srv
handle env offline_check srv = check_offline env srv
handle env hangup_timer srv = fire_hangup env srv
handle env (kick user) srv = kick_banned user srv
handle env (wait ms) srv = elapse ms srv

unfoldable pub run : Env → List Request → Server → Server
unfolding handle
run env [] srv = srv
run env (r ∷ rs) srv = run env rs (handle env r srv)
