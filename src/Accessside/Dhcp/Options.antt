-- ===== src/Accessside/Dhcp/Options.antt =====
-- The options of a DHCP packet, written and read again.
use vectorcore_twag.Base.{
  ℕ, zero, suc, ◌%◌, ◌^◌, ◌<◌, ◌≤◌, ◌≡◌, ◌≢◌, refl, true, false, List, [], ◌∷◌, ◌++◌, length, All,
  ◌==◌, if◌then◌else◌, arith, take-append, drop-append, length-append, append_assoc, inl, inr,
  Bool-cases, ap, ◌∙◌,
}
use vectorcore_twag.Base.Bytes.{Bytes}
use vectorcore_twag.Base.Map.{Assoc, insert, nat_eq}
use vectorcore_twag.Accessside.Dhcp.{
  DhcpOption, options_loop, parse_options, encode_options, opt_end,
}

-- A code that is neither the pad nor the end, and data that one byte counts.
pub record IsOption (opt : DhcpOption) : Type 0 where
  pub not_pad : opt.code ≢ 0
  pub not_end : opt.code ≢ opt_end
  pub short : length opt.value < 256

-- The map that the options make: one without data is left out, and a later one replaces an earlier
-- one of its code.
unfoldable pub collected : List DhcpOption → Assoc ℕ Bytes → Assoc ℕ Bytes
collected [] m = m
collected (opt ∷ opts) m =
    collected opts (if length opt.value == 0 then m else insert opt.code opt.value m)

module _ (rest : Bytes) where
  abbrev written : List DhcpOption → Bytes
  written opts = encode_options opts ++ (opt_end ∷ rest)

  -- One option at the front.
  option_step :
      (fuel code : ℕ) (value tail : Bytes) (m : Assoc ℕ Bytes)
      → code ≢ 0
      → code ≢ opt_end
      → options_loop (suc fuel) (code ∷ length value ∷ (value ++ tail)) m
        ≡ options_loop fuel tail (insert code value m)
  unfolding options_loop
  option_step fuel code value tail m h k =
      ground (arith, take-append value tail, drop-append value tail, length-append value tail)

  written_empty :
      (opt : DhcpOption) (opts : List DhcpOption)
      → (length opt.value == 0) ≡ true
      → written (opt ∷ opts) ≡ written opts
  unfolding encode_options
  written_empty opt opts h = rw h refl

  written_full :
      (opt : DhcpOption) (opts : List DhcpOption)
      → IsOption opt
      → (length opt.value == 0) ≡ false
      → written (opt ∷ opts) ≡ opt.code ∷ length opt.value ∷ (opt.value ++ written opts)
  unfolding encode_options
  written_full opt opts c h =
      let whole : length opt.value % 2 ^ 8 ≡ length opt.value = omega (arith, c.short) in
      rw (h, whole)
        (ap (λ t. opt.code ∷ length opt.value ∷ t) (append_assoc opt.value _ (opt_end ∷ rest)))

  options_loop-written :
      (opts : List DhcpOption) (fuel : ℕ) (m : Assoc ℕ Bytes)
      → All IsOption opts
      → length (written opts) ≤ fuel
      → options_loop fuel (written opts) m ≡ collected opts m
  unfolding options_loop encode_options collected
  options_loop-written opts zero m h enough =
      absurd (omega (arith, length-append (encode_options opts) (opt_end ∷ rest)))
  options_loop-written [] (suc fuel) m h enough = ground arith
  options_loop-written (opt ∷ opts) (suc fuel) m h enough =
      elim (Bool-cases (length opt.value == 0)) [
        | inl empty ↦
            rw (written_empty opt opts empty, empty)
              (options_loop-written opts (suc fuel) m h.1
                (rw (← ap length (written_empty opt opts empty)) enough))
        | inr full ↦
            rw (written_full opt opts h.0 full, full)
              (option_step fuel opt.code opt.value (written opts) m h.0.not_pad h.0.not_end
                ∙ options_loop-written opts fuel (insert opt.code opt.value m) h.1 (
                    omega (
                      arith,
                      ap length (written_full opt opts h.0 full),
                      length-append opt.value (written opts),
                    )))
      ]

  -- What buildDHCPFrame writes for options, with an end and any bytes behind it, parseOptions reads
  -- as the map of those that have data, where each code is neither the pad nor the end and the data
  -- is shorter than 256 bytes.
  pub parse_options-encode_options :
      (opts : List DhcpOption)
      → All IsOption opts
      → parse_options (encode_options opts ++ (opt_end ∷ rest)) ≡ collected opts []
  unfolding parse_options
  parse_options-encode_options opts h =
      options_loop-written opts (length (written opts)) [] h (omega arith)
