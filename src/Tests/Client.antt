-- ===== src/Tests/Client.antt =====
-- MyDataBase.cpp with a client whose queries succeed and give two results each.
use shujugongxiang.Prelude.{◌≡◌, Bool, true, false, some, List, [], ◌∷◌, refl, arith}
use shujugongxiang.Text.Defs.{codes}
use shujugongxiang.Mysql.{
  ClientCall, next_result, Client, DataBase, add_call, multi_statements_on, send_query, query,
}
use shujugongxiang.Mysql.Results.{calls_at, query_lem}

-- Since the last text was sent, no next result was asked for.
unfoldable is_first : List ClientCall → Bool → Bool
is_first [] first = first
is_first (send_query sql ∷ calls) first = is_first calls true
is_first (next_result ∷ calls) first = is_first calls false
is_first (_ ∷ calls) first = is_first calls first

abbrev client : Client
client = record {
  succeeds = λ calls c. true;
  more = λ calls. is_first calls false;
  stored = λ calls. [];
  error_number = λ calls. 0;
  error_text = λ calls. [];
}

abbrev data_base : DataBase
data_base = record {
  calls = [];
  con_info = record {
    server = codes "10.0.0.2";
    user = codes "root";
    password = codes "pw";
    database = codes "safety";
    port = 3306;
  };
  is_connect = true;
  error_num = 0;
  error_info = codes "ok";
}

query_lem_example :
    (query client 2 (codes "delete from a; delete from b") data_base).0
    ≡ some (
        client.succeeds
          (add_call multi_statements_on data_base).calls
          (send_query (codes "delete from a; delete from b")))
unfolding is_first calls_at
query_lem_example =
    query_lem client 1 2 (codes "delete from a; delete from b") data_base refl (omega arith)
