-- ===== src/Vm/FieldNames.antt =====
-- compiler/rust/crates/squidvm-core/src/vm.rs: `RuntimeFieldName`, the names that a record of the
-- runtime may use. A constructor of it is the name that it is parsed from.
use squid_script.Base.{
  ℕ, Bool, false, ◌||◌, Option, none, some, List, [], ◌∷◌, bytes_eq, if◌then◌else◌,
}

abbrev pub field_names : List (List ℕ)
field_names =
    (97 ∷ 99 ∷ 116 ∷ 105 ∷ 118 ∷ 101 ∷ [])
    ∷ (97 ∷ 112 ∷ 83 ∷ 116 ∷ 97 ∷ 114 ∷ 116 ∷ 69 ∷ 118 ∷ 101 ∷ 110 ∷ 116 ∷ 115 ∷ [])
    ∷ (97 ∷ 112 ∷ 83 ∷ 116 ∷ 111 ∷ 112 ∷ 69 ∷ 118 ∷ 101 ∷ 110 ∷ 116 ∷ 115 ∷ [])
    ∷ (97 ∷ 112 ∷ 112 ∷ 73 ∷ 100 ∷ [])
    ∷ (97 ∷ 117 ∷ 116 ∷ 104 ∷ [])
    ∷ (97 ∷ 118 ∷ 97 ∷ 105 ∷ 108 ∷ 97 ∷ 98 ∷ 108 ∷ 101 ∷ [])
    ∷ (98 ∷ 97 ∷ 99 ∷ 107 ∷ 101 ∷ 110 ∷ 100 ∷ [])
    ∷ (98 ∷ 105 ∷ 110 ∷ 100 ∷ 105 ∷ 110 ∷ 103 ∷ [])
    ∷ (98 ∷ 111 ∷ 111 ∷ 107 ∷ [])
    ∷ (98 ∷ 115 ∷ 115 ∷ 105 ∷ 100 ∷ [])
    ∷ (98 ∷ 117 ∷ 105 ∷ 108 ∷ 100 ∷ [])
    ∷ (98 ∷ 121 ∷ 116 ∷ 101 ∷ 115 ∷ 82 ∷ 101 ∷ 99 ∷ 101 ∷ 105 ∷ 118 ∷ 101 ∷ 100 ∷ [])
    ∷ (98 ∷ 121 ∷ 116 ∷ 101 ∷ 115 ∷ 87 ∷ 114 ∷ 105 ∷ 116 ∷ 116 ∷ 101 ∷ 110 ∷ [])
    ∷ (99 ∷ 97 ∷ 110 ∷ 99 ∷ 101 ∷ 108 ∷ 108 ∷ 101 ∷ 100 ∷ [])
    ∷ (99 ∷ 104 ∷ 97 ∷ 110 ∷ 110 ∷ 101 ∷ 108 ∷ [])
    ∷ (99 ∷ 104 ∷ 97 ∷ 112 ∷ 116 ∷ 101 ∷ 114 ∷ 67 ∷ 111 ∷ 117 ∷ 110 ∷ 116 ∷ [])
    ∷ (99 ∷ 108 ∷ 105 ∷ 101 ∷ 110 ∷ 116 ∷ 115 ∷ [])
    ∷ (99 ∷ 111 ∷ 108 ∷ 111 ∷ 114 ∷ 77 ∷ 111 ∷ 100 ∷ 101 ∷ 108 ∷ [])
    ∷ (99 ∷ 111 ∷ 110 ∷ 102 ∷ 105 ∷ 103 ∷ 117 ∷ 114 ∷ 101 ∷ 100 ∷ [])
    ∷ (99 ∷ 111 ∷ 110 ∷ 110 ∷ 101 ∷ 99 ∷ 116 ∷ 101 ∷ 100 ∷ [])
    ∷ (99 ∷ 111 ∷ 117 ∷ 110 ∷ 116 ∷ [])
    ∷ (100 ∷ 101 ∷ 102 ∷ 97 ∷ 117 ∷ 108 ∷ 116 ∷ 70 ∷ 111 ∷ 110 ∷ 116 ∷ 72 ∷ 101 ∷ 105 ∷ 103 ∷ 104
        ∷ 116 ∷ [])
    ∷ (100 ∷ 101 ∷ 115 ∷ 99 ∷ 114 ∷ 105 ∷ 112 ∷ 116 ∷ 105 ∷ 111 ∷ 110 ∷ [])
    ∷ (100 ∷ 105 ∷ 115 ∷ 99 ∷ 111 ∷ 110 ∷ 110 ∷ 101 ∷ 99 ∷ 116 ∷ 82 ∷ 101 ∷ 97 ∷ 115 ∷ 111 ∷ 110
        ∷ [])
    ∷ (100 ∷ 105 ∷ 115 ∷ 99 ∷ 111 ∷ 110 ∷ 110 ∷ 101 ∷ 99 ∷ 116 ∷ 82 ∷ 101 ∷ 97 ∷ 115 ∷ 111 ∷ 110
        ∷ 67 ∷ 111 ∷ 100 ∷ 101 ∷ [])
    ∷ (100 ∷ 111 ∷ 110 ∷ 101 ∷ [])
    ∷ (100 ∷ 114 ∷ 105 ∷ 118 ∷ 101 ∷ 114 ∷ [])
    ∷ (100 ∷ 114 ∷ 105 ∷ 118 ∷ 101 ∷ 114 ∷ 77 ∷ 111 ∷ 100 ∷ 101 ∷ [])
    ∷ (100 ∷ 114 ∷ 105 ∷ 118 ∷ 101 ∷ 114 ∷ 83 ∷ 116 ∷ 97 ∷ 114 ∷ 116 ∷ 101 ∷ 100 ∷ [])
    ∷ (100 ∷ 114 ∷ 97 ∷ 119 ∷ 97 ∷ 98 ∷ 108 ∷ 101 ∷ [])
    ∷ (101 ∷ 114 ∷ 114 ∷ 111 ∷ 114 ∷ [])
    ∷ (101 ∷ 118 ∷ 101 ∷ 110 ∷ 116 ∷ [])
    ∷ (103 ∷ 119 ∷ [])
    ∷ (104 ∷ 101 ∷ 105 ∷ 103 ∷ 104 ∷ 116 ∷ [])
    ∷ (104 ∷ 97 ∷ 115 ∷ 77 ∷ 111 ∷ 114 ∷ 101 ∷ [])
    ∷ (104 ∷ 105 ∷ 100 ∷ 100 ∷ 101 ∷ 110 ∷ [])
    ∷ (105 ∷ 100 ∷ [])
    ∷ (105 ∷ 112 ∷ [])
    ∷ (105 ∷ 112 ∷ 65 ∷ 100 ∷ 100 ∷ 114 ∷ 101 ∷ 115 ∷ 115 ∷ [])
    ∷ (105 ∷ 110 ∷ 100 ∷ 101 ∷ 120 ∷ [])
    ∷ (105 ∷ 116 ∷ 101 ∷ 109 ∷ 115 ∷ [])
    ∷ (107 ∷ 105 ∷ 110 ∷ 100 ∷ [])
    ∷ (108 ∷ 97 ∷ 115 ∷ 116 ∷ 66 ∷ 97 ∷ 99 ∷ 107 ∷ 101 ∷ 110 ∷ 100 ∷ 67 ∷ 111 ∷ 100 ∷ 101 ∷ [])
    ∷ (108 ∷ 101 ∷ 118 ∷ 101 ∷ 108 ∷ [])
    ∷ (108 ∷ 105 ∷ 110 ∷ 101 ∷ 115 ∷ [])
    ∷ (108 ∷ 105 ∷ 98 ∷ 114 ∷ 97 ∷ 114 ∷ 121 ∷ [])
    ∷ (108 ∷ 111 ∷ 103 ∷ 105 ∷ 99 ∷ 97 ∷ 108 ∷ 71 ∷ 114 ∷ 97 ∷ 121 ∷ 76 ∷ 101 ∷ 118 ∷ 101 ∷ 108
        ∷ 115 ∷ [])
    ∷ (109 ∷ 111 ∷ 100 ∷ 101 ∷ [])
    ∷ (110 ∷ 97 ∷ 109 ∷ 101 ∷ [])
    ∷ (110 ∷ 97 ∷ 116 ∷ 105 ∷ 118 ∷ 101 ∷ 66 ∷ 112 ∷ 112 ∷ [])
    ∷ (110 ∷ 97 ∷ 116 ∷ 105 ∷ 118 ∷ 101 ∷ 80 ∷ 105 ∷ 120 ∷ 101 ∷ 108 ∷ 70 ∷ 111 ∷ 114 ∷ 109 ∷ 97
        ∷ 116 ∷ [])
    ∷ (110 ∷ 101 ∷ 116 ∷ 109 ∷ 97 ∷ 115 ∷ 107 ∷ [])
    ∷ (111 ∷ 98 ∷ 106 ∷ 101 ∷ 99 ∷ 116 ∷ 78 ∷ 97 ∷ 109 ∷ 101 ∷ [])
    ∷ (111 ∷ 107 ∷ [])
    ∷ (112 ∷ 97 ∷ 103 ∷ 101 ∷ 67 ∷ 111 ∷ 117 ∷ 110 ∷ 116 ∷ [])
    ∷ (112 ∷ 97 ∷ 103 ∷ 101 ∷ 73 ∷ 110 ∷ 100 ∷ 101 ∷ 120 ∷ [])
    ∷ (112 ∷ 97 ∷ 116 ∷ 104 ∷ [])
    ∷ (112 ∷ 104 ∷ 121 ∷ 115 ∷ 105 ∷ 99 ∷ 97 ∷ 108 ∷ 72 ∷ 101 ∷ 105 ∷ 103 ∷ 104 ∷ 116 ∷ [])
    ∷ (112 ∷ 104 ∷ 121 ∷ 115 ∷ 105 ∷ 99 ∷ 97 ∷ 108 ∷ 87 ∷ 105 ∷ 100 ∷ 116 ∷ 104 ∷ [])
    ∷ (112 ∷ 114 ∷ 111 ∷ 98 ∷ 101 ∷ 69 ∷ 118 ∷ 101 ∷ 110 ∷ 116 ∷ 115 ∷ [])
    ∷ (112 ∷ 114 ∷ 111 ∷ 102 ∷ 105 ∷ 108 ∷ 101 ∷ [])
    ∷ (114 ∷ 101 ∷ 97 ∷ 100 ∷ 121 ∷ [])
    ∷ (114 ∷ 101 ∷ 102 ∷ [])
    ∷ (114 ∷ 111 ∷ 116 ∷ 97 ∷ 116 ∷ 105 ∷ 111 ∷ 110 ∷ [])
    ∷ (114 ∷ 115 ∷ 115 ∷ 105 ∷ [])
    ∷ (115 ∷ 99 ∷ 97 ∷ 110 ∷ 77 ∷ 97 ∷ 116 ∷ 99 ∷ 104 ∷ 101 ∷ 115 ∷ [])
    ∷ (115 ∷ 105 ∷ 122 ∷ 101 ∷ [])
    ∷ (115 ∷ 115 ∷ 105 ∷ 100 ∷ [])
    ∷ (115 ∷ 115 ∷ 105 ∷ 100 ∷ 76 ∷ 101 ∷ 110 ∷ 103 ∷ 116 ∷ 104 ∷ [])
    ∷ (115 ∷ 116 ∷ 97 ∷ 67 ∷ 111 ∷ 110 ∷ 110 ∷ 101 ∷ 99 ∷ 116 ∷ 101 ∷ 100 ∷ 69 ∷ 118 ∷ 101 ∷ 110
        ∷ 116 ∷ 115 ∷ [])
    ∷ (115 ∷ 116 ∷ 97 ∷ 68 ∷ 105 ∷ 115 ∷ 99 ∷ 111 ∷ 110 ∷ 110 ∷ 101 ∷ 99 ∷ 116 ∷ 101 ∷ 100 ∷ 69
        ∷ 118 ∷ 101 ∷ 110 ∷ 116 ∷ 115 ∷ [])
    ∷ (115 ∷ 116 ∷ 97 ∷ 116 ∷ 101 ∷ [])
    ∷ (115 ∷ 116 ∷ 97 ∷ 116 ∷ 117 ∷ 115 ∷ [])
    ∷ (115 ∷ 117 ∷ 112 ∷ 112 ∷ 111 ∷ 114 ∷ 116 ∷ 115 ∷ 70 ∷ 97 ∷ 115 ∷ 116 ∷ 82 ∷ 101 ∷ 102 ∷ 114
        ∷ 101 ∷ 115 ∷ 104 ∷ [])
    ∷ (115 ∷ 117 ∷ 112 ∷ 112 ∷ 111 ∷ 114 ∷ 116 ∷ 115 ∷ 80 ∷ 97 ∷ 114 ∷ 116 ∷ 105 ∷ 97 ∷ 108 ∷ 82
        ∷ 101 ∷ 102 ∷ 114 ∷ 101 ∷ 115 ∷ 104 ∷ [])
    ∷ (116 ∷ 101 ∷ 120 ∷ 116 ∷ [])
    ∷ (116 ∷ 105 ∷ 116 ∷ 108 ∷ 101 ∷ [])
    ∷ (116 ∷ 111 ∷ 116 ∷ 97 ∷ 108 ∷ 66 ∷ 121 ∷ 116 ∷ 101 ∷ 115 ∷ [])
    ∷ (116 ∷ 114 ∷ 97 ∷ 110 ∷ 115 ∷ 112 ∷ 111 ∷ 114 ∷ 116 ∷ [])
    ∷ (116 ∷ 121 ∷ 112 ∷ 101 ∷ [])
    ∷ (117 ∷ 112 ∷ 108 ∷ 111 ∷ 97 ∷ 100 ∷ [])
    ∷ (119 ∷ 97 ∷ 114 ∷ 110 ∷ 105 ∷ 110 ∷ 103 ∷ [])
    ∷ (119 ∷ 105 ∷ 100 ∷ 116 ∷ 104 ∷ [])
    ∷ []

abbrev pub is_among : List ℕ → List (List ℕ) → Bool
is_among name [] = false
is_among name (n ∷ ns) = bytes_eq n name || is_among name ns

-- `RuntimeFieldName::parse`
unfoldable pub parse_field_name : List ℕ → Option (List ℕ)
parse_field_name name = if is_among name field_names then some name else none
