-- ===== src/Lib.antt =====
-- directdnsonly takes the DNS zones that DirectAdmin servers push over HTTP, keeps an index of them in
-- a table, and writes them to name servers (BIND, NSD) through persistent queues. A push or a delete is
-- an item on a queue. The save worker registers the zone's owner in the table, writes the zone to every
-- backend and keeps the zone in the table; what failed goes to a retry queue with a growing delay,
-- whose items the drain worker moves back when they are due. The delete worker removes a zone from the
-- backends and the table if the owner asks for it. The reconciler compares the table with what the
-- servers list, corrects owners, queues deletes for orphans, and queues a save where a backend lacks
-- a stored zone. The peer sync copies newer zones from the tables of other instances.
--
-- The files and the code they model (paths from the root of the repository):
--   Base, Base/*: Python's `==`, `in` and truth values, lists, the methods of strings (Base/Text), and
--     `Exec`, a state monad with exceptions in which what was done before a raise stays done.
--   Database, Database/*: the `domains` table of directdnsonly/app/db/models/__init__.py. SQLAlchemy is
--     a record of operations with its laws (`IsDatabase`), and with commits that succeed
--     (`IsReliable`); Database/Memory meets both.
--   Queue, Queue/*: the queues of the persist-queue package, a record of operations with the laws of a
--     FIFO queue (`IsFifo`); Queue/Memory meets them.
--   Backend: the interface of directdnsonly/app/backends/base.py. Backend/Files: the system calls of a
--     backend, each of which may fail by a schedule, on files of text that can be decoded. Backend/Bind
--     and Backend/Nsd: directdnsonly/app/backends/bind.py and nsd.py. Backend/Dispatch: the two classes of
--     directdnsonly/app/backends/__init__.py as one type of instances. Backend/Store: what both classes
--     promise as stores of zone files. Backend/Nsd/*: the include file of NSD as a list of zones.
--   Registry: the loading of instances in directdnsonly/app/backends/__init__.py; the machine that the
--     constructors ask is a parameter.
--   Schema: directdnsonly/app/db/__init__.py, the migration of the table and the URL of the database,
--     also that of a call without an argument.
--   Config: directdnsonly/config/__init__.py; the package vyper is a parameter.
--   Main: directdnsonly/main.py, from the first call to the engine's end; how each call ends is a
--     parameter. Main/Access: whose requests the server lets through; what CherryPy makes of credentials
--     and of the section of a path is a parameter.
--   Zone: directdnsonly/app/utils/zone_parser.py; the parser of dnspython is a parameter.
--   Index: directdnsonly/app/utils/__init__.py.
--   Worker/*: directdnsonly/worker.py. Worker/State holds the manager's state; Worker/Backends the calls
--     on one backend; Worker/Save, Worker/Retry and Worker/Delete the three workers, one function for
--     the body of each loop and one for a round of it; Worker/Save/Order the order of threads.
--     Worker/Backends/Files, Worker/Save/Published and Worker/Delete/Gone are about the zone files. Worker/Delete/Stale is about
--     what the delete worker's session keeps.
--   Reconciler/*: directdnsonly/app/reconciler.py. Reconciler/Poll, Reconciler/Compare and
--     Reconciler/Heal hold the parts of a pass, Reconciler/Pass puts them together, and Reconciler/Run is
--     the life of the thread and its status, Reconciler/Config the constructor.
--     Reconciler/Client is the poll with the client of Da.
--   PeerSync/*: directdnsonly/app/peer_sync.py. PeerSync/Peers holds the list of peers and the
--     discovery, PeerSync/Health the health of the peers, PeerSync/Zones the sync from one peer,
--     PeerSync/Pass a pass over all peers, PeerSync/Run the life of the thread.
--   Da/*: directdnsonly/app/da/client.py. Da/Client holds the session, the requests and the login,
--     Da/Domains the listing of domains, Da/Servers the Extra DNS servers; `requests`, JSON and
--     `parse_qs` are the parameter `Net`.
--   Status: directdnsonly/app/api/status.py, and the counts of `get_peer_status`.
--   HealthApi: directdnsonly/app/api/health.py, on the instances of the registry.
--   Internal: directdnsonly/app/api/internal.py, what an instance answers to the peer sync of another.
--     Internal/Gossip puts its list of peers together with the discovery.
--   Admin: directdnsonly/app/api/admin.py, the handler that puts items on the queues and answers
--     whether a zone exists; Admin/Debug is `queue_status`.
--   Exchange: the peer sync of one instance against the internal API of another.
--   System: the steps of the handlers, the three workers, the reconciler and the peer sync on one
--     manager, and what any sequence of them leads to. System/Saves, System/Passes
--     and System/Threads put the loops of the threads down to them; System/Lifecycle holds `start` and
--     `stop` of directdnsonly/worker.py; System/Publish and System/Withdraw follow a push and a delete from the request to the backends and the peers.
--   Tests/*: the theorems at a host in memory.
--
-- A host (Worker/State) is what the workers run on: the table, the queues, the backends, the clocks,
-- and the order in which threads finish, which is any permutation of the results. The threads of
-- one item work on different instances, so that their calls are modelled one after the other. The workers
-- share the table and the queues only; a step of a worker is modelled as a whole. What the
-- delete worker's session keeps of a row between two items is a field of the manager's state.
--
-- Loops over lists are recursion on the list. A round of the save worker and the loop that empties the
-- retry queue run on fuel, the size of the queue and one: each turn takes an item from the queue, and
-- neither puts one back on it. The listing of domains runs on fuel too, a turn for each page: with
-- M + 2 it ends if no document gives more than M pages, as one turn may go to a login and one finds the
-- last page passed. The search for a stanza in nsd.conf runs on the length of the text.
--
-- Not modelled: logging and the measuring of durations; that `stop` waits for threads; that a session
-- may refuse its use after a commit that raised; the decoding of requests; which handler CherryPy calls for a path. Main keeps the settings that the program hands to
-- CherryPy; but for the credentials, it is not said what they do. The methods `strip`, `lower`,
-- `upper` and `isdigit` of strings are those on ASCII characters.
-- `requests` is a parameter of the peer sync: the responses, with their status and parsed body.
pub mod Base
pub mod Database
pub mod Queue
pub mod Backend
pub mod Zone
pub mod Index
pub mod Worker
pub mod Reconciler
pub mod PeerSync
pub mod Status
pub mod System
pub mod Exchange
pub mod Registry
pub mod Schema
pub mod Da
pub mod Internal
pub mod Admin
pub mod Config
pub mod Main
pub mod HealthApi
mod Tests
