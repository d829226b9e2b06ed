-- ===== src/Herdr/Reply.antt =====
-- What the agent takes from a Herdr server: herdrRequest and ReadHerdrAgents of
-- notifications/internal/agent/herdr_api.go. The server's replies, decoded by encoding/json, are inputs.
use nova_codex_bootstrap.Prelude.{
  ℕ, ◌^◌, ◌≤◌, ◌≡◌, refl, String, Bool, true, false, not, ◌&&◌, ◌||◌, List, [], ◌∷◌, map, length,
  Option, none, some, ltb, ◌==◌, str_eq, if◌then◌else◌, arith, ◌-◌, inl, inr, Bool-cases,
}
use Prim.Native.String.{◌++◌}
use nova_codex_bootstrap.Prelude.Decimal.{decimal}
use nova_codex_bootstrap.Protocol.Event.{valid_id}
use nova_codex_bootstrap.Herdr.Agent.{HerdrAgent}
use nova_codex_bootstrap.Herdr.Version.{supports_completion_evidence}
use nova_codex_bootstrap.Herdr.Socket.{valid_herdr_status}

-- os.Lstat and unix.Lstat of the path. os.SameFile compares device and inode.
pub record SocketStat : Type 0 where
  pub is_socket : Bool
  pub uid : ℕ
  pub dev : ℕ
  pub ino : ℕ
  pub mod_time : ℕ

-- A decoded reply: its id, whether it has an error, and its result; `empty` is no result at all, and
-- `malformed` one that json.Unmarshal refuses.
pub data Result (A : Type 0) : Type 0 where
  empty malformed : Result A
  result : A → Result A

pub record Response (A : Type 0) : Type 0 where
  pub id : String
  pub has_error : Bool
  pub body : Result A

-- herdrRequest; `none` of the argument is a request that fails or a reply that is no JSON
unfoldable pub herdr_request : {A : Type 0} → Option (Response A) → Option A
herdr_request none = none
herdr_request (some r) =
    if not (str_eq r.id "novascale-notifications") || r.has_error
    then none
    else elim r.body [ empty ↦ none | malformed ↦ none | result a ↦ some a ]

-- What ReadHerdrAgents meets at a path: the user, the socket before and after, the version that the
-- ping gives, the agents, and the incarnation marker of a socket.
pub record Server : Type 0 where
  pub user : ℕ
  pub before : Option SocketStat
  pub ping : Option (Response String)
  pub list : Option (Response (List HerdrAgent))
  pub after : Option SocketStat

abbrev pub above : Option ℕ → ℕ → Bool
above none n = false
above (some m) n = ltb n m

-- the tests on one agent
unfoldable pub valid_agent : HerdrAgent → Bool
valid_agent a =
    valid_id a.pane_id
    && valid_id a.terminal_id
    && valid_herdr_status a.status
    && not (ltb (2 ^ 63 - 1) a.sequence)
    && not (above a.completion_sequence a.sequence)

unfoldable pub valid_agents : List HerdrAgent → Bool
valid_agents [] = true
valid_agents (a ∷ agents) = valid_agent a && valid_agents agents

-- os.SameFile and the times of modification
abbrev pub same_socket : SocketStat → Option SocketStat → Bool
same_socket s none = false
same_socket s (some t) = s.dev == t.dev && s.ino == t.ino && s.mod_time == t.mod_time

-- fmt.Sprintf("%d:%d:%d", dev, ino, mod_time)
unfoldable pub incarnation_of : SocketStat → String
incarnation_of s = decimal s.dev ++ ":" ++ decimal s.ino ++ ":" ++ decimal s.mod_time

-- each agent is told whether the server gives completion evidence, and is checked
unfoldable pub check_agents : Bool → List HerdrAgent → Option (List HerdrAgent)
check_agents supported agents =
    let told = map {A = HerdrAgent} (λ a. record a { completion_supported = supported }) agents in
    if ltb 512 (length agents) || not (valid_agents told) then none else some told

abbrev pub with_marker : String → Option (List HerdrAgent) → Option (List HerdrAgent × String)
with_marker marker none = none
with_marker marker (some agents) = some (agents, marker)

read_lists :
    SocketStat
    → Option SocketStat
    → Option String
    → Option (List HerdrAgent)
    → Option (List HerdrAgent × String)
read_lists s after (some version) (some agents) =
    if same_socket s after
    then with_marker (incarnation_of s) (check_agents (supports_completion_evidence version) agents)
    else none
read_lists s after _ _ = none

read_from : Server → Option SocketStat → Option (List HerdrAgent × String)
unfolding read_lists
read_from server none = none
read_from server (some s) =
    if not s.is_socket || not (s.uid == server.user)
    then none
    else read_lists s server.after (herdr_request server.ping) (herdr_request server.list)

-- ReadHerdrAgents; `none` is an error
unfoldable pub read_herdr_agents : Server → Option (List HerdrAgent × String)
unfolding read_from
read_herdr_agents server = read_from server server.before

-- What the agent relies on in a snapshot.
pub record IsReadable (server : Server) (agents : List HerdrAgent) (marker : String) : Type 0 where
  pub few : length agents ≤ 512
  pub all_valid : valid_agents agents ≡ true
  pub socket : SocketStat
  pub was_there : server.before ≡ some socket
  pub is_socket : socket.is_socket ≡ true
  pub is_own : (socket.uid == server.user) ≡ true
  pub stayed : same_socket socket server.after ≡ true
  pub marked : marker ≡ incarnation_of socket

length-told :
    (supported : Bool) (agents : List HerdrAgent)
    → length (map {A = HerdrAgent} (λ a. record a { completion_supported = supported }) agents)
      ≡ length agents
length-told supported [] = refl
length-told supported (a ∷ agents) = ground (arith, length-told supported agents)

check_agents-valid :
    (supported : Bool) (agents told : List HerdrAgent)
    → check_agents supported agents ≡ some told
    → (length told ≤ 512) × (valid_agents told ≡ true)
unfolding check_agents
check_agents-valid supported agents told h = ground (arith, length-told supported agents)

with_marker-some :
    (marker m : String) (o : Option (List HerdrAgent)) (agents : List HerdrAgent)
    → with_marker marker o ≡ some (agents, m)
    → (o ≡ some agents) × (m ≡ marker)
with_marker-some marker m none agents h = absurd (ground arith)
with_marker-some marker m (some told) agents h = (cc, cc)

read_lists-IsReadable :
    (server : Server) (s : SocketStat) (version : Option String) (list : Option (List HerdrAgent))
    (agents : List HerdrAgent) (marker : String)
    → server.before ≡ some s
    → s.is_socket ≡ true
    → (s.uid == server.user) ≡ true
    → read_lists s server.after version list ≡ some (agents, marker)
    → IsReadable server agents marker
unfolding read_lists
read_lists-IsReadable server s (some version) (some list) agents marker there sock own h =
    let checked = check_agents (supports_completion_evidence version) list in
    elim (Bool-cases (same_socket s server.after)) [
      | inl stayed ↦
          let (told, marked) =
            with_marker-some (incarnation_of s) marker checked agents (rw stayed at h) in
          let (few, valid) =
            check_agents-valid (supports_completion_evidence version) list agents told in
          record {
            few = few;
            all_valid = valid;
            socket = s;
            was_there = there;
            is_socket = sock;
            is_own = own;
            stayed = stayed;
            marked = marked;
          }
      | inr moved ↦ absurd (ground arith)
    ]
read_lists-IsReadable server s none list agents marker there sock own h = absurd (ground arith)
read_lists-IsReadable server s (some version) none agents marker there sock own h =
    absurd (ground arith)

read_from-IsReadable :
    (server : Server) (o : Option SocketStat) (agents : List HerdrAgent) (marker : String)
    → server.before ≡ o
    → read_from server o ≡ some (agents, marker)
    → IsReadable server agents marker
unfolding read_from
read_from-IsReadable server none agents marker there h = absurd (ground arith)
read_from-IsReadable server (some s) agents marker there h =
    elim (Bool-cases (not s.is_socket || not (s.uid == server.user))) [
      | inl bad ↦ absurd (ground arith)
      | inr good ↦
          read_lists-IsReadable server s (herdr_request server.ping) (herdr_request server.list)
            agents marker there (ground arith) (ground arith) (rw good at h)
    ]

-- Agents that are read are at most 512 and valid, and come from a socket of the user that was the
-- same before and after the requests, with the marker of its device, inode and time.
pub read_herdr_agents-IsReadable :
    (server : Server) (agents : List HerdrAgent) (marker : String)
    → read_herdr_agents server ≡ some (agents, marker)
    → IsReadable server agents marker
unfolding read_herdr_agents
read_herdr_agents-IsReadable server agents marker h =
    read_from-IsReadable server server.before agents marker refl h
