-- ===== src/Lib.antt =====
-- Snow Brawl: the browser client, client_src/*.js, and the game server, *.ts. What the messages, the
-- timers and the players do to the state that each side keeps, and what the client's state says of the
-- server's.
--
-- The client keeps shared objects (players, snowballs) in an array and a map at once, and refers to
-- the local player by a third variable; so objects stand in a store and are referred to by their
-- place (World.antt, Snowball.antt).
--   Base/       strings as UTF-16 code units, the JavaScript Map, integers, lists
--   Engine      what is taken from outside the repository: JavaScript's numbers and Math, three.js
--               vectors, the UTF-8 decoder
--   Utils/      client_src/utils.js: hashing, colours, random numbers, fixUTF8, terrain, overlay,
--               random ids, and the encryption, with the browser's part (AES-GCM, base64, UTF-8,
--               JSON) as a parameter
--   Player/     client_src/player.js: PlayerModel; Motion and Animation are its update
--   Snowball/   client_src/snowball.js: Snowball, and the sweep of each frame
--   World/      players, playersById, localPlayer; createLocalPlayer and removePlayer of
--               client_src/network.js
--   Network/    client_src/network.js: applySnapshot, the states message, applyEvent
--   Connection/ client_src/network.js: sockets, reconnection, the ping loop, sending, onmessage;
--               a session is any sequence of what the browser does to it
--   Game/       client_src/init.js: keys, mouse, chat box and the frame loop; a play is any sequence
--               of events of the page and of the connection, among them the timers that hide a chat
--               bubble and that end a snowball after three seconds: they may run at any time
--   Menu/       client_src/init.js: the login panels and the leaderboards
--   Environment/  client_src/environment.js: what is drawn from the seeded generator, where the
--               models are placed, the obstacles
--   Server/     the server's side, one module for each file:
--     Utils, Protocol, State   utils.ts, protocol.ts, config.ts and state.ts: the limits of texts, the
--               messages, the players' cache, the numbered event log, the two rate limits
--     Cipher    utils.ts: the encryption's framing, joined to the client's
--     Flight, Game, Shots   game.ts: the search for a ball's victim, states, deaths and respawns,
--               the table of shots
--     Gateway   ws.ts: messages, closed connections, the hello timer
--     Bots/     bot.ts: the bots' places, walks and shots; Room joins them to the gateway
--     Storage/  storage.ts: the tables of kills and of statistics
--     Auth/     auth.ts: the login by OAuth, the tokens, the development login
--     Sound/, Dedupe/, Limits, Log, Mirror, Names, Revive, Search, Victim   proofs; Mirror says how
--               the client's registry follows the server's cache
--   Tests/      runs, and the theorems at concrete inputs
--
-- A handler of the server is cut where it waits (for a broadcast, or for serverOnHello): the rest
-- of it is a task, and a run is any sequence of messages, timers, bots' turns and tasks, so that
-- all interleavings at these awaits are runs, those of two hellos on one socket too. The await on
-- the error for a name that is taken is not reached, since ALLOW_DUPLICATE_NAMES is true; the texts
-- of a socket may be decrypted in any order, as its messages may come in any order. Between two
-- awaits the clock is read once. The client object of a connection is shared by the closure of its
-- socket and the table of clients, and is referred to by the socket's number. Messages have the
-- types of protocol.ts, except where the code checks for a part.
--
-- Numbers with fractions are those of an abstract engine; times compared with performance.now() are
-- natural numbers of microseconds, those of Date.now() of milliseconds. show_number has fuel, one
-- round for each digit and never more than n + 1. The two loops that turn a remote player's angle
-- have the fuel of the frame, which is enough when it exceeds the rounds that the loops take; no
-- fuel is enough for an angle so large that a turn is lost in rounding, where the source loops for
-- ever. The placement loop of the models counts its 50 attempts down, as the source counts them up.
--
-- Not modelled: meshes, lights, textures and sounds, which the program only hands to three.js and
-- to the browser; the ciphers themselves; the HTML of the menus; the removal of a chat line after
-- 30 seconds; of the server, the sorted queries of storage.ts, and the HTTP routes of main.ts; the
-- build scripts.
pub mod Base
pub mod Engine
pub mod Utils
pub mod Player
pub mod World
pub mod Snowball
pub mod Network
pub mod Connection
pub mod Game
pub mod Environment
pub mod Menu
pub mod Server
pub mod Tests
