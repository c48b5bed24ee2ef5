-- ===== src/Lib.antt =====
-- Verification library of the game server: a logicserver for accounts and goods, a matchserver
-- that assigns players to rooms of the roomservers, and roomservers that run the matches.
--
-- RoomToken models demo_server/pkg/roomtoken/token.go: the token that the matchserver signs
-- and the roomserver checks. jwt-go is a parameter, `Jwt`, with its documented laws in `IsJwt`.
-- Matching models demo_server/src/matchserver/logic/matcher.go: `new_matcher` is NewMatcher, `allocate_room`
-- is AllocateRoom with what it calls, one definition to a method. A pointer to a room is the number
-- `ref` that its allocation got, so a write through the pointer is `update_room`. What a call reads
-- from outside, its clocks and random bytes, is an argument, `Env`.
-- Numbers are the native ones. Go maps are association lists, and `range` visits their entries in
-- the list's order, which is any order. A time is a number of nanoseconds.
-- Float stands for float64 and package math: an abstract type `F` with its operations. What a theorem
-- assumes of them is a record of laws that it names, `Compares` in World/Nearest and `TurnsBack` in
-- World/Seen; the others assume nothing.
-- Room models demo_server/src/roomserver/logic/room.go with player.go, movement.go and sync.go: State has the
-- data, Create the constructor, Join the queue, joining and leaving and the start of the match,
-- Inputs the inputs that wait for their frame, Fire shots, kills and respawns, Update a frame, the
-- end of the match, snapshots and stats queries, and Loop the loop of the room between the calls of
-- Join, Leave and PushInput. The physics world is the interface `Physics` over a state `W`, as
-- PhysicsWorld is, and the filter of the snapshots an argument. What the room sends is logged in
-- `outbox`, the latest first, the answers of stats queries in `answers` and the calls of onFinished
-- in `finished`. Frame numbers are unbounded numbers, where the code has int64. Join, an event and a
-- frame are one step each; the interleavings are the lists of turns. The pointer to a player is its
-- entry in `players`, which every write goes through. The search of nextAvailableInputTick has as
-- much fuel as there are frames up to its limit. Not modelled: the wall clock that messages carry,
-- logs, and the wait of a stats query.
-- Manager models demo_server/src/roomserver/logic/room_manager.go: the rooms by their ids and the index of the
-- players; a room that a call changes is put back into the map. What the logicserver and the physics
-- factory answer is an argument, and `settled` logs the settlement requests.
-- Session models demo_server/src/roomserver/service/session.go: the queue and the snapshot channel between the
-- room and the connection. The choice of a select is an argument, and the turns of the write loop
-- between the selects of SendSnapshot are lists.
-- Message models the frames of demo_server/src/roomserver/protocol/message.go over lists of bytes.
-- Level models judgePlayerLevel of demo_server/src/logicserver/repo/user.go over the table of its consts/const.go;
-- sort.Search is written out with as much fuel as there are levels.
-- Server models the handlers of demo_server/src/roomserver/service/server.go that change a session
-- or the rooms, over RoomToken, Session and Manager.
-- World models demo_server/src/roomserver/logic/physics.go and aoi.go: Simple the calls of SimplePhysicsWorld, and
-- `simple_physics`, which is that world behind the interface of the room, Rays its ray tests and Aoi
-- the filter of the snapshots. `range` over the players takes the order of a list, which is any
-- order. The loops of normalizeAngle have fuel 2, one turn and the test that ends it. The log of the
-- filter and its throttle are not modelled.
-- Map models demo_server/src/roomserver/physx/map_collision.go: Mesh the check of a mesh, Check that of a map and
-- the spawn points that the room gets, Path the search of the file, with as much fuel as the working
-- directory has letters and one more, and Load what it is for. `index_panic` stands for an index
-- outside of a slice, which ends a call of Go. The loops over slices are recursions over lists. The
-- packages os, filepath and json, strings.ToLower and math.Atan2 are arguments.
-- Account models demo_server/pkg/jwt/jwt.go (Signing), demo_server/src/logicserver/repo/token.go (Sessions)
-- and demo_server/src/logicserver/logic/auth.go (Login and Register). jwt-go is the parameter `JwtGo` with
-- its documented laws in `IsJwtGo`, Redis the parameter `Redis` with those of its transactions in
-- `IsRedis`; bcrypt, SHA-256, mail.ParseAddress and strings.ToLower are fields of `AuthLogic`. A duration of the
-- configuration is not negative, and the clock is read once in a call. Hashes do not expire while
-- a theorem looks at them.
-- Player models demo_server/src/logicserver/repo/user.go (Users) and repo/mall.go with logic/mall.go (Mall),
-- logic/player_info.go (Info) and the settlement of service/service.go (Service). A collection of MongoDB is the
-- parameter `Collection`: a filter is a test and an update a function on documents, `IsCollection` has what
-- MongoDB documents of its calls and unique indexes, and a call that fails may have been carried
-- out. Numbers of int64 are exact integers, so sums that leave 64 bits are not modelled.
-- Match models demo_server/src/matchserver/service/service.go (Service) and demo_server/src/logicserver/logic/match.go
-- (Lobby): MatchRoom over Account and Matching. A call by gRPC is answered, not sent, or carried out
-- with its answer lost; an argument says which.
-- Gateway models demo_server/src/logicserver/httpgateway/gateway.go and the same calls of demo_server/src/logicserver/service/service.go:
-- Auth both doors for the accounts and the match, Shop the shop and the equipment over HTTP, Profile
-- the rest. The decoding of JSON is an argument. An error whose own text is the content of an answer
-- is answered as that error. Not modelled: timeouts, log lines and SendVerifyCode, which is disabled.
-- Prelude/Actions has the results and the calls over a state that Account and Player are written in:
-- what was written stays written when a call ends with an error.
-- Nil receivers and nil requests are not modelled.
pub mod Prelude
pub mod Account
pub mod RoomToken
pub mod Match
pub mod Gateway
pub mod Matching
pub mod Float
pub mod Message
pub mod Room
pub mod Manager
pub mod Map
pub mod Player
pub mod Level
pub mod Session
pub mod World
pub mod Server
