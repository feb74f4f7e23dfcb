-- ===== src/Stores/Operations.antt =====
-- apps/backend/src/stores/operation-store.ts. Of an operation, the fields that the store reads.
use sardeenz.Base.{same, length, filter, find, ℕ, max, String, Option, List, [], string_key}
use sardeenz.Base.Tail.{slice_back}
use sardeenz.Stores.Requests.{push_bounded}

pub record ControllerOperation : Type 0 where
  pub id : String
  pub model_path : String

pub record OperationStore : Type 0 where
  pub operations : List ControllerOperation
  pub max_size : ℕ

unfoldable pub new : ℕ → OperationStore
new max = record { operations = []; max_size = max }

unfoldable pub add : ControllerOperation → OperationStore → OperationStore
unfolding push_bounded
add op s = record s { operations = push_bounded s.max_size op s.operations }

unfoldable pub get : String → OperationStore → Option ControllerOperation
get id s = find (λ op. same op.id id) s.operations

abbrev pub get_all : OperationStore → List ControllerOperation
get_all s = s.operations

unfoldable pub get_by_model : String → OperationStore → List ControllerOperation
get_by_model path s = filter (λ op. same op.model_path path) s.operations

unfoldable pub get_recent : ℕ → OperationStore → List ControllerOperation
get_recent limit s = slice_back limit s.operations

unfoldable pub count : OperationStore → ℕ
count s = length s.operations

unfoldable pub clear : OperationStore → OperationStore
clear s = record s { operations = [] }
