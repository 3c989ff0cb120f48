-- ===== src/Operator/Watching.antt =====
-- NewController, Run and the event handlers of internal/operator/controller.go. The informer is the
-- list of the events that it delivers for one resource, in order; between them the master goes on
-- by itself. An object that is no *unstructured.Unstructured is `none`.
pub mod Panics
use dist_command_exec.Prelude.{
  String, Bool, true, false, not, Option, none, some, List, [], ◌∷◌, if◌then◌else◌,
}
use dist_command_exec.Types.{Duration, Bytes}
use dist_command_exec.Executor.Command.{CommandPayload}
use dist_command_exec.Client.{MasterClient}
use dist_command_exec.Operator.{
  DistributedJob, GoValue, Setting, Outlook, lives, dies, Access, on_update,
}

-- schema.GroupVersionResource
pub record GroupVersionResource : Type 0 where
  pub group : String
  pub version : String
  pub resource : String

-- GVR, the kind of resource that the informer delivers.
abbrev pub gvr : GroupVersionResource
gvr = record { group = "distexec.io"; version = "v1"; resource = "distributedjobs" }

-- Controller; its two clients are arguments of the functions.
pub record Controller : Type 0 where
  pub master_addr : String
  pub namespace : String

-- NewController
unfoldable pub new_controller : String → String → Controller
new_controller master_addr namespace = record { master_addr = master_addr; namespace = namespace }

-- What one handled event meets: what the informer hands over, the states that the calls of
-- checkJobStatus meet, and the answers of the API server.
pub record Sight (M : Type 0) : Type 0 where
  pub object : Option DistributedJob
  pub met : String → M
  pub access : Access

pub data Kind : Type 0 where
  added updated deleted : Kind

-- An event, behind what the master did by itself.
pub record Event (M : Type 0) : Type 0 where
  pub meanwhile : M → M
  pub kind : Kind
  pub sight : Sight M

-- What comes behind an event, if the process goes on.
unfoldable pub behind :
    {M : Type 0} → (M × DistributedJob → M × Outlook) → M × Outlook → M × Outlook
behind next (m, lives stored) = next (m, stored)
behind next (m, dies stored) = (m, dies stored)

module _ {M : Type 0} (c : MasterClient M) (marshal : CommandPayload → Option Bytes)
    (set_nested_field : DistributedJob → List (String × GoValue) → Setting)
    (parse_duration : String → Option Duration) where
  -- reconcile with its write, on an object of the right type.
  seen : Option DistributedJob → Sight M → M × DistributedJob → M × Outlook
  seen none x (m, stored) = (m, lives stored)
  seen (some u) x (m, stored) =
      on_update c marshal set_nested_field parse_duration m u x.met x.access stored

  -- onAdd, onUpdate and onDelete.
  unfoldable pub handle : Kind → Sight M → M × DistributedJob → M × Outlook
  unfolding seen
  handle added x s = seen x.object x s
  handle updated x s = seen x.object x s
  handle deleted x (m, stored) = (m, lives stored)

  unfoldable pub handle_all : List (Event M) → M × DistributedJob → M × Outlook
  unfolding behind
  handle_all [] (m, stored) = (m, lives stored)
  handle_all (e ∷ es) (m, stored) =
      behind (handle_all es) (handle e.kind e.sight (e.meanwhile m, stored))

  -- Run: the error that it returns, if any. `dials` is whether grpc.NewClient takes the address,
  -- and `syncs` whether the cache comes to hold the resources before the context ends.
  unfoldable pub run :
      Controller
      → (String → Bool)
      → Bool
      → List (Event M)
      → M × DistributedJob
      → (M × Outlook) × Option String
  run k dials syncs es (m, stored) =
      if not (dials k.master_addr)
      then ((m, lives stored), some "connect to master")
      else (handle_all es (m, stored), if syncs then none else some "failed to sync cache")
