-- ===== src/Commit/Tests.antt =====
-- Instances of the theorems.
use node_messager.Base.{none, some, [], ◌∷◌}
use node_messager.Dto.{UsuarioRow}
use node_messager.Db.{Db, empty}
use node_messager.Fixtures.{s1}
use node_messager.Commit.{Codecs, Context, commit_handler}
use node_messager.Commit.Rows.{IsPlaced}
use node_messager.Commit.Repeat.{Settles, commit_handler-Settles}
use node_messager.Commit.Placement.{commit_handler-IsPlaced}

-- Texts that are users.
abbrev json : Codecs UsuarioRow
json = record {
  usuario = record { marshal = λ r. r; unmarshal = some };
  ingeniero = record {
    marshal = λ r. record { id = r.id; nombre = r.nombre; sucursal_id = r.sucursal_id };
    unmarshal = λ r.
        some (record { id = r.id; nombre = r.nombre; sucursal_id = r.sucursal_id; disponible = 1 });
  };
  dispositivo = record {
    marshal = λ r. record { id = r.id; nombre = r.nombre; sucursal_id = r.sucursal_id };
    unmarshal = λ r. none;
  };
  ticket = record {
    marshal = λ r. record { id = r.id; nombre = r.estado; sucursal_id = r.id_sucursal };
    unmarshal = λ r. none;
  };
  folio = record {
    marshal = λ r. record { id = r.id_ticket; nombre = r.folio; sucursal_id = 0 };
    unmarshal = λ r. some (record { id_ticket = r.id; folio = r.nombre });
  };
  close = record {
    marshal = λ r. record { id = r.id_ticket; nombre = ""; sucursal_id = r.id_ingeniero };
    unmarshal = λ r. some (record { id_ticket = r.id; id_ingeniero = r.sucursal_id });
  };
}

abbrev context : Context
context = record { now = "t"; first = none; second = none; bad_json = "bad json" }

empty-IsPlaced : IsPlaced 1 empty
empty-IsPlaced = record {
  ingenieros = (tt, tt);
  usuarios = (tt, tt);
  dispositivos = (tt, tt);
  tickets = (tt, tt);
}

commit_handler-IsPlaced_example :
    IsPlaced 1
      (commit_handler json s1 context "INSERT_USUARIO"
        (record { id = 10000000009; nombre = "Eva"; sucursal_id = 1 })
        empty).0
commit_handler-IsPlaced_example =
    commit_handler-IsPlaced json s1 context "INSERT_USUARIO"
      (record { id = 10000000009; nombre = "Eva"; sucursal_id = 1 }) empty empty-IsPlaced

commit_handler-Settles_example : Settles (
    commit_handler json s1 context "INSERT_USUARIO"
      (record { id = 10000000009; nombre = "Eva"; sucursal_id = 1 }))
commit_handler-Settles_example =
    commit_handler-Settles json s1 context "INSERT_USUARIO"
      (record { id = 10000000009; nombre = "Eva"; sucursal_id = 1 })

abbrev one_open : Db
one_open = record {
  ingenieros = record { id = 9; nombre = "Ana"; sucursal_id = 1; disponible = 0 } ∷ [];
  usuarios = [];
  dispositivos = [];
  tickets =
      record {
        id = 7;
        id_usuario = 2;
        id_ingeniero = 9;
        id_sucursal = 1;
        id_dispositivo = 4;
        estado = "ABIERTO";
        folio = "";
        created_at = "t";
        closed_at = "";
      }
      ∷ [];
}
