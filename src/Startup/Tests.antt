-- ===== src/Startup/Tests.antt =====
-- Instances of the theorems: the second node starts on a new database.
use node_messager.Base.{ℕ, ◌≡◌, refl, true, none, some, List, [], ◌∷◌, nat_eq, In}
use node_messager.Base.Dict.{Dict, lookup, insert, delete}
use node_messager.Dto.{Node, unknown, Codec}
use node_messager.Fixtures.{s1, s2}
use node_messager.MsgStore.{Entry, Store, new_with_file, load_from_file}
use node_messager.MsgStore
use node_messager.Db.{empty, count_ingenieros, insert_ingeniero, insert_or_ignore}
use node_messager.Db.Seed.{seed, seed_tables, seed_rows, seed_row}
use node_messager.Commit.Rows.{IsPlaced}
use node_messager.Config.{Config}
use node_messager.Dispatcher.{Running, Json, Arrival}
use node_messager.Dispatcher.Sound.{IsSound, after}
use node_messager.Startup.{Disk, all_stores, add_stores, Seeding, running, start_node}
use node_messager.Startup.Stores.{Has, all_stores-Has}
use node_messager.Startup.Sound.{start_node-IsSound}

abbrev config : Config
config = record { nodes = s1 ∷ s2 ∷ []; host_node = some s2; master_id = 1 }

abbrev entries : Codec (List ℕ) (Entry ℕ)
entries = record { marshal = λ e. []; unmarshal = λ l. none }

abbrev disk : Node → Disk
disk n = record { found = none; opening = true }

abbrev lines_of : List ℕ → List (List ℕ)
lines_of bytes = []

abbrev stores : Dict ℕ (Store ℕ)
stores =
    (2, record { entries = []; max = 50; file = some [] })
    ∷ (1, record { entries = []; max = 50; file = none })
    ∷ []

opens : all_stores entries lines_of disk config ≡ some stores
unfolding all_stores add_stores new_with_file load_from_file MsgStore.new lookup insert delete
opens = refl

all_stores-Has_example :
    ((n : Node) → In n (s1 ∷ s2 ∷ []) → Has n.id stores)
    × ((h : Node) → some s2 ≡ some h → Has h.id stores)
all_stores-Has_example = all_stores-Has entries lines_of disk config stores opens

abbrev silent : {P : Type 0} → Codec ℕ P
silent = record { marshal = λ p. 0; unmarshal = λ s. none }

abbrev json : Json ℕ
json = record {
  propose = silent;
  vote = silent;
  commit = silent;
  lock = silent;
  election = silent;
  coordinator = silent;
  query = silent;
  query_response = silent;
  rows = record { ingenieros = silent; usuarios = silent; dispositivos = silent; tickets = silent };
  add_device = silent;
  node_dead = silent;
  operations = record {
    usuario = silent;
    ingeniero = silent;
    dispositivo = silent;
    ticket = silent;
    folio = silent;
    close = silent;
  };
}

abbrev seeding : Seeding
seeding = record {
  file = some (record {
    ingenieros = record { id = 20000000001; nombre = "Luis"; sucursal_id = 2 } ∷ [];
    usuarios = [];
    dispositivos = [];
  });
  counted = none;
  io = record { ingeniero = λ id. none; usuario = λ id. none; dispositivo = λ id. none };
}

abbrev started : Running ℕ
started = running s2 config (record empty {
  ingenieros = record { id = 20000000001; nombre = "Luis"; sucursal_id = 2; disponible = 1 } ∷ [];
})

starts : start_node s2 config seeding empty 0 ≡ some (started, 1)
unfolding start_node seed seed_tables seed_rows seed_row count_ingenieros insert_ingeniero
    insert_or_ignore
starts = refl

empty-IsPlaced : IsPlaced 2 empty
empty-IsPlaced = record {
  ingenieros = (tt, tt);
  usuarios = (tt, tt);
  dispositivos = (tt, tt);
  tickets = (tt, tt);
}

abbrev arrivals : List (Arrival ℕ)
arrivals =
    record {
      message = record {
        id = "m";
        type = unknown "HELLO";
        from_node = "sucursal1";
        to_node = "sucursal2";
        content = 0;
        send_at = "t";
      };
      select_error = none;
      context = record { now = "t"; first = none; second = none; bad_json = "bad" };
    }
    ∷ []

start_node-IsSound_example :
    IsSound s2 (s1 ∷ s2 ∷ []) (after json s2 (s1 ∷ s2 ∷ []) arrivals started)
start_node-IsSound_example =
    start_node-IsSound json s2 config seeding empty 0 (started, 1) arrivals empty-IsPlaced starts
      ((λ e. tt), tt)
