-- ===== src/Host/Filter.antt =====
-- pkg/host/filter.go: the devices that a CEL expression selects. The package cel-go is a parameter.
pub mod Exact
use device_network.Prelude.{String, Bool, List, [], ◌∷◌, if◌then◌else◌}
use device_network.Prelude.Results.{Result, ok, err, ◌>>=◌, wrap}
use device_network.Host.{Device}

pub data CelType : Type 0 where
  string_type bool_type : CelType

-- A value of CEL, as its Go type shows it.
pub data CelValue : Type 0 where
  text : String → CelValue
  truth : Bool → CelValue
  other : CelValue

-- github.com/google/cel-go/cel. The issues of a compilation are its error.
pub record Cel : Type 1 where
  pub Env : Type 0
  pub Ast : Type 0
  pub Program : Type 0
  pub new_env : List (String × CelType) → Result Env
  pub compile : Env → String → Result Ast
  pub program : Env → Ast → Result Program
  pub context_eval : Program → List (String × CelValue) → Result CelValue

abbrev pub interface_name_attribute : String
interface_name_attribute = "interfaceName"

abbrev pub rdma_capable_attribute : String
rdma_capable_attribute = "rdmaCapable"

unfoldable pub as_bool : CelValue → Result Bool
as_bool (truth b) = ok b
as_bool (text s) = err "unexpected result type"
as_bool other = err "unexpected result type"

module _ (c : Cel) where
  open c use {Program, new_env, compile, program, context_eval}

  unfoldable pub cel_program : String → Result Program
  cel_program expression = do
    env ← wrap "error creating CEL environment" (
        new_env
          ((interface_name_attribute, string_type) ∷ (rdma_capable_attribute, bool_type) ∷ []))
    ast ← wrap "type-check error" (compile env expression)
    wrap "error creating CEL program" (program env ast)

  unfoldable pub eval : Program → Device → Result Bool
  eval p device = do
    out ← wrap "error evaluating CEL program" (
        context_eval p (
          (interface_name_attribute, text device.spec.interface_name)
          ∷ (rdma_capable_attribute, truth device.spec.rdma_capable)
          ∷ []))
    as_bool out

  -- The loop of `EvalDevices`: the first error ends it.
  unfoldable pub filter_devices : Program → List Device → Result (List Device)
  filter_devices p [] = ok []
  filter_devices p (device ∷ devices) = do
    match ← wrap "error evaluating CEL program" (eval p device)
    rest ← filter_devices p devices
    ok (if match then device ∷ rest else rest)

  unfoldable pub eval_devices : String → List Device → Result (List Device)
  eval_devices expression devices = do
    p ← wrap "error creating CEL program" (cel_program expression)
    filter_devices p devices
