-- ===== src/Config/Tests.antt =====
-- A blank EEPROM that works, and a parameter of three blocks that is written to it.
use sapphire_os.Prelude.{
  update, ℤ, Returns, pos, ℕ, ◌≡◌, refl, sym, ◌∙◌, ◌≢◌, ◌↔◌, ◌⊎◌, List, [], ◌∷◌, arith,
}
use sapphire_os.System.{set_warnings}
use sapphire_os.Ip.{Addr}
use sapphire_os.Types.{type_size}
use sapphire_os.Config.{Eeprom, Config, IpConfig, no_entry, empty_block, warn_config_full, field}
use sapphire_os.Config.Params.{write_param, read_param}
use sapphire_os.Config.Cells.{IsReliable}
use sapphire_os.Config.Sound.{Sound}
use sapphire_os.Config.Replaced.{Holds}
use sapphire_os.Config.Parts.{IsFull}
use sapphire_os.Config.RoundTrip.{read_param-write_param}

abbrev cells : Eeprom (ℕ → ℕ)
cells = record { read = λ a e. e a; program = λ b v e. update e b v }

cells-IsReliable : IsReliable cells
cells-IsReliable = record { read_program = λ a b v e l m. refl }

abbrev nowhere : Addr
nowhere = record { ip3 = 0; ip2 = 0; ip1 = 0; ip0 = 0 }

abbrev blank : Config (ℕ → ℕ)
blank = record {
  eeprom = λ a. 255;
  cfg_index = λ k. no_entry;
  cfg_index_insert = 0;
  ip_config = record {
    ip = nowhere;
    subnet = nowhere;
    dns_server = nowhere;
    internet_gateway = nowhere;
  };
  kernel = record { stats = λ k. 0; error = 0; warnings = 0 };
}

blank-Sound : Sound cells blank
unfolding sapphire_os.Config.read_bytes
blank-Sound = record {
  unique = λ id n b c used one two. absurd (used (sym one.id_of ∙ refl));
  indexed = λ k l used. absurd (used refl);
  inserts = omega arith;
}

-- all parameters are keys of sixteen bytes
abbrev key128 : ℕ → ℤ
key128 parameter = pos 43

abbrev sixteen : List ℕ
sixteen = 1 ∷ 2 ∷ 3 ∷ 4 ∷ 5 ∷ 6 ∷ 7 ∷ 8 ∷ 9 ∷ 10 ∷ 11 ∷ 12 ∷ 13 ∷ 14 ∷ 15 ∷ 16 ∷ []

read_param-write_param_example :
    Returns
      (λ t.
        Sound cells t
        × ((IsFull cells t.eeprom × (t.kernel ≡ set_warnings warn_config_full blank.kernel))
            ⊎ ((t.kernel ≡ blank.kernel)
                × Returns
                    (λ (status, bytes, u). (status ≡ pos 0) × (bytes ≡ sixteen))
                    (read_param cells key128 (λ parameter. pos 16) 9 t)))
        × ((other : List ℕ)
            → field 0 other ≢ empty_block
            → field 0 other ≢ 9
            → Holds cells blank.eeprom other ↔ Holds cells t.eeprom other))
      (write_param cells key128 (λ parameter. pos 16) 66 9 sixteen blank)
unfolding type_size
read_param-write_param_example =
    read_param-write_param cells 9 (pos 43) (λ e. omega (arith, e)) cells-IsReliable key128
      (λ parameter. pos 16) 66 sixteen blank refl refl (omega arith) refl (omega arith) blank-Sound
