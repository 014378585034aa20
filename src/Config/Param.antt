-- ===== src/Config/Param.antt =====
-- A setting with its provenance, api/config/param.go.
use proton_utils.Base.{Bool, true, false, Bytes, codes}

pub data ParamSource : Type 0 where
  unset file cli : ParamSource

-- `ParamSource.String`
abbrev pub source_string : ParamSource → Bytes
source_string unset = codes "default"
source_string file = codes "file"
source_string cli = codes "cli"

pub record Param (T : Type 0) : Type 0 where
  pub value : T
  pub dflt : T
  pub source : ParamSource

-- `ParamInfo`
pub record ParamInfo : Type 0 where
  pub shown : Bytes
  pub shown_default : Bytes
  pub from_source : ParamSource

module _ {T : Type 0} where
  -- `NewParam`, whose value is the type's zero
  unfoldable pub new_param : T → T → Param T
  new_param zero dflt = record { value = zero; dflt = dflt; source = unset }

  abbrev pub choose : ParamSource → T → T → T
  choose unset dflt value = dflt
  choose _ dflt value = value

  -- `Value`
  unfoldable pub value_of : Param T → T
  value_of p = choose p.source p.dflt p.value

  -- `IsSet`
  unfoldable pub is_set : Param T → Bool
  is_set p = elim p.source [ unset ↦ false | file ↦ true | cli ↦ true ]

  -- `SetFile`
  unfoldable pub set_file : T → Param T → Param T
  set_file v p = record p { value = v; source = file }

  -- `SetCLI`
  unfoldable pub set_cli : T → Param T → Param T
  set_cli v p = record p { value = v; source = cli }

  -- `Reset`, with the type's zero
  unfoldable pub reset : T → Param T → Param T
  reset zero p = record p { value = zero; source = unset }

  -- `Info`
  unfoldable pub info : (T → Bytes) → Param T → ParamInfo
  unfolding value_of
  info format p = record {
    shown = format (value_of p);
    shown_default = format p.dflt;
    from_source = p.source;
  }
