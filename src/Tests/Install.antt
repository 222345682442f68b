-- ===== src/Tests/Install.antt =====
-- gpt/installer.c at concrete inputs.
use tlibc.Base.{◌≡◌, refl, [], ◌∷◌, ◌++◌, codes, length, arith}
use tlibc.Install.{defaults, flag, unknown, parsed, spinning, parse, config_of, mkpart}
use tlibc.Install.Args.{kernel, size, spell_all, apply_all, parse-settings, parse-unknown}

parse-settings_example :
    parse 2 length defaults (spell_all (kernel (codes "bzImage") ∷ size (codes "128") ∷ []))
    ≡ parsed (apply_all length (kernel (codes "bzImage") ∷ size (codes "128") ∷ []) defaults)
parse-settings_example =
    parse-settings (kernel (codes "bzImage") ∷ size (codes "128") ∷ []) 2 length defaults
      (omega arith)

parse-unknown_example :
    parse 1000 length defaults (spell_all (kernel (codes "bzImage") ∷ []) ++ codes "-x" ∷ [])
    ≡ spinning
parse-unknown_example =
    parse-unknown (kernel (codes "bzImage") ∷ []) 1000 length defaults (codes "-x") [] dash_x
  where
    dash_x : flag (codes "-x") ≡ unknown
    dash_x = unfold tlibc.Install.flag tlibc.Install.same in refl
