-- ===== src/App/Router/Reachable.antt =====
-- The life of a server: the requests that it serves one after another, and what other processes do
-- to the tables, the network and the cache server in between. A request carries out at most one
-- statement that changes tables, so one step stands for it.
use todo_rust.Prelude.{List, Option}
use todo_rust.App.Changes.{Change}
use todo_rust.App.Changes.Invariants.{Change-Sound}
use todo_rust.App.Router.Invariants.{AllSound, serve-AllSound}
use todo_rust.App.Router.Pages.{Arrival, Request}
use todo_rust.App.Router.Service.{Outside, Server, TowerLayers, serve}
use todo_rust.App.Router.Transparency.{AreTransparent}
use todo_rust.App.Start.Main.{start}
use todo_rust.App.State.{AppState}
use todo_rust.App.World.{AuthSession, External}
use todo_rust.Domain.{User}
use todo_rust.Storage.{Link, Tables}

module _ {R S : Type 0} (x : External R S) (out : Outside) (tower : TowerLayers R S)
    (state : AppState) where
  -- The server with the session of a request.
  abbrev with_session : AuthSession S → Server R S → Server R S
  with_session auth s = record s { world = record s.world { auth = auth } }

  abbrev with_tables : Tables → List Link → Server R S → Server R S
  with_tables t links s = record s {
    world = record s.world { db = record { tables = t; links = links } };
  }

  pub data Step (s : Server R S) : Server R S → Type 0 where
    served :
        (arrival : Arrival) (req : Request) (auth : AuthSession S)
        → Step s (serve x out tower state arrival req (with_session auth s)).1
    elsewhere :
        (user : Option User) (t : Tables) (links : List Link)
        → Change x.accounts user s.world.db.tables t
        → Step s (with_tables t links s)
    recached : (r : R) → Step s (record s { world = record s.world { redis = r } })

  pub data Reach (start : Server R S) : Server R S → Type 0 where
    at_start : Reach start start
    next_step : {s t : Server R S} → Reach start s → Step s t → Reach start t

  Step-AllSound :
      (transparent : AreTransparent tower) {s t : Server R S}
      → Step s t
      → AllSound x.accounts s.world.db.tables s.limiter
      → AllSound x.accounts t.world.db.tables t.limiter
  Step-AllSound transparent {s} (served arrival req auth) h =
      serve-AllSound x out tower state transparent arrival req (with_session auth s) h
  Step-AllSound transparent {s} (elsewhere user t links c) (sound, bounded) =
      (Change-Sound x.accounts user s.world.db.tables t c sound, bounded)
  Step-AllSound transparent (recached r) h = h

  -- Where the layers of the libraries touch the tables and the limiter by the service inside them
  -- only, and the tables and the limiter of a server are sound at the start, they are so in every
  -- state that requests, other processes, the network and the cache server lead to, in any order:
  -- the identifiers of the todos are distinct, their titles have 1 to 280 characters, their owners
  -- are users, the addresses of the accounts are distinct, and no bucket holds more than the burst.
  pub Reach-AllSound :
      (transparent : AreTransparent tower) (start s : Server R S)
      → AllSound x.accounts start.world.db.tables start.limiter
      → Reach start s
      → AllSound x.accounts s.world.db.tables s.limiter
  Reach-AllSound transparent start s h at_start = h
  Reach-AllSound transparent start t h (next_step r step) =
      Step-AllSound transparent step (Reach-AllSound transparent start _ h r)
