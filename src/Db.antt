-- ===== src/Db.antt =====
-- internal/db/db.go: one node's tables. A statement's SQL is read as the list operation that it
-- states; what the driver answers is an argument, and a statement that fails changes nothing. SQL
-- leaves the order of a SELECT's rows open: here it is the order of their insertion.
pub mod Tables
pub mod Seed
pub mod Migrate
use node_messager.Base.{
  ℕ, suc, String, Bool, true, false, ◌&&◌, ◌||◌, Option, none, some, List, [], ◌∷◌, ◌++◌, map, ◌==◌,
  nat_eq, string_eq, if◌then◌else◌, length, select, find_first,
}
use node_messager.Base.Retry.{Result, ok, err}

pub record Ingeniero : Type 0 where
  pub id : ℕ
  pub nombre : String
  pub sucursal_id : ℕ
  pub disponible : ℕ

pub record Usuario : Type 0 where
  pub id : ℕ
  pub nombre : String
  pub sucursal_id : ℕ

pub record Dispositivo : Type 0 where
  pub id : ℕ
  pub nombre : String
  pub tipo : String
  pub sucursal_id : ℕ
  pub ingeniero_id : ℕ

pub record Ticket : Type 0 where
  pub id : ℕ
  pub id_usuario : ℕ
  pub id_ingeniero : ℕ
  pub id_sucursal : ℕ
  pub id_dispositivo : ℕ
  pub estado : String
  pub folio : String
  pub created_at : String
  pub closed_at : String

pub record Db : Type 0 where
  pub ingenieros : List Ingeniero
  pub usuarios : List Usuario
  pub dispositivos : List Dispositivo
  pub tickets : List Ticket

abbrev pub empty : Db
empty = record { ingenieros = []; usuarios = []; dispositivos = []; tickets = [] }

-- The driver's answer to a statement: an error, or none.
abbrev pub Answer : Type 0
Answer = Option String

abbrev pub exec : Answer → Db → Db → Db × Answer
exec none d' d = (d', none)
exec (some x) d' d = (d, some x)

module _ {A : Type 0} (key : A → ℕ) where
  abbrev pub has_key : ℕ → List A → Bool
  has_key k [] = false
  has_key k (x ∷ xs) = key x == k || has_key k xs

  -- INSERT OR IGNORE on a table whose primary key is `key`.
  unfoldable pub insert_or_ignore : A → List A → List A
  insert_or_ignore a xs = if has_key (key a) xs then xs else xs ++ a ∷ []

  -- UPDATE ... WHERE id=?
  unfoldable pub update_where : ℕ → (A → A) → List A → List A
  update_where k f [] = []
  update_where k f (x ∷ xs) = (if key x == k then f x else x) ∷ update_where k f xs

unfoldable pub insert_ingeniero : ℕ → String → ℕ → Answer → Db → Db × Answer
insert_ingeniero id nombre sucursal_id io d =
    let r : Ingeniero = record {
      id = id;
      nombre = nombre;
      sucursal_id = sucursal_id;
      disponible = 1;
    } in
    exec io (record d { ingenieros = insert_or_ignore (λ x. x.id) r d.ingenieros }) d

unfoldable pub get_ingeniero_disponible : Db → Option Ingeniero
get_ingeniero_disponible d = find_first (λ r. r.disponible == 1) d.ingenieros

unfoldable pub set_ingeniero_disponible : ℕ → ℕ → Answer → Db → Db × Answer
set_ingeniero_disponible id disponible io d =
    exec io
      (record d {
        ingenieros =
            update_where (λ x. x.id) id (λ r. record r { disponible = disponible }) d.ingenieros;
      })
      d

unfoldable pub count_ingenieros : Db → ℕ
count_ingenieros d = length d.ingenieros

unfoldable pub insert_usuario : ℕ → String → ℕ → Answer → Db → Db × Answer
insert_usuario id nombre sucursal_id io d =
    let r : Usuario = record { id = id; nombre = nombre; sucursal_id = sucursal_id } in
    exec io (record d { usuarios = insert_or_ignore (λ x. x.id) r d.usuarios }) d

unfoldable pub insert_dispositivo : ℕ → String → String → ℕ → ℕ → Answer → Db → Db × Answer
insert_dispositivo id nombre tipo sucursal_id ingeniero_id io d =
    let r : Dispositivo = record {
      id = id;
      nombre = nombre;
      tipo = tipo;
      sucursal_id = sucursal_id;
      ingeniero_id = ingeniero_id;
    } in
    exec io (record d { dispositivos = insert_or_ignore (λ x. x.id) r d.dispositivos }) d

unfoldable pub count_dispositivos_by_ingeniero : ℕ → Db → ℕ
count_dispositivos_by_ingeniero id d = length (select (λ r. r.ingeniero_id == id) d.dispositivos)

unfoldable pub count_dispositivos : Db → ℕ
count_dispositivos d = length d.dispositivos

unfoldable pub insert_ticket_full : Ticket → Answer → Db → Db × Answer
insert_ticket_full t io d =
    exec io (record d { tickets = insert_or_ignore (λ x. x.id) t d.tickets }) d

-- `InsertTicket`: the id is the one that the database gives, if the statement succeeds.
unfoldable pub insert_ticket :
    (id_usuario id_ingeniero id_sucursal id_dispositivo : ℕ) (now : String)
    → Result String ℕ
    → Db
    → Db × Result String ℕ
insert_ticket id_usuario id_ingeniero id_sucursal id_dispositivo now (err x) d = (d, err x)
insert_ticket id_usuario id_ingeniero id_sucursal id_dispositivo now (ok id) d =
    let t : Ticket = record {
      id = id;
      id_usuario = id_usuario;
      id_ingeniero = id_ingeniero;
      id_sucursal = id_sucursal;
      id_dispositivo = id_dispositivo;
      estado = "ABIERTO";
      folio = "";
      created_at = now;
      closed_at = "";
    } in
    (record d { tickets = d.tickets ++ t ∷ [] }, ok id)

unfoldable pub update_ticket_folio : ℕ → String → Answer → Db → Db × Answer
update_ticket_folio id folio io d =
    exec io
      (record d {
        tickets = update_where (λ x. x.id) id (λ t. record t { folio = folio }) d.tickets;
      })
      d

-- `now` is the time of the call.
unfoldable pub close_ticket : String → ℕ → Answer → Db → Db × Answer
close_ticket now id io d =
    exec io
      (record d {
        tickets =
            update_where (λ x. x.id) id (λ t. record t { estado = "CERRADO"; closed_at = now })
              d.tickets;
      })
      d

unfoldable pub get_open_tickets_by_sucursal : ℕ → Db → List Ticket
get_open_tickets_by_sucursal id d =
    select (λ t. t.estado == "ABIERTO" && t.id_sucursal == id) d.tickets

-- What a SELECT of whole rows gives: an error of the driver, or the rows.
abbrev pub fetched : {A : Type 0} → Answer → List A → Result String (List A)
fetched (some x) rows = err x
fetched none rows = ok rows

unfoldable pub get_ingenieros : Answer → Db → Result String (List Ingeniero)
get_ingenieros io d = fetched io d.ingenieros

unfoldable pub get_usuarios : Answer → Db → Result String (List Usuario)
get_usuarios io d = fetched io d.usuarios

unfoldable pub get_dispositivos : Answer → Db → Result String (List Dispositivo)
get_dispositivos io d = fetched io d.dispositivos

unfoldable pub get_tickets : Answer → Db → Result String (List Ticket)
get_tickets io d = fetched io d.tickets
