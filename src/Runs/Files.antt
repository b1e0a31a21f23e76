-- ===== src/Runs/Files.antt =====
-- Configuration lines of cfgparse.c and the transfer list of transfer.c at concrete inputs.
use frelay.Common.{inl, inr, ◌≡◌, refl, List, [], ◌∷◌, codes, none, some}
use frelay.Strings.{str_eq, is_space}
use frelay.Config.{
  CfgDef, cfg_parse_t_int, cfg_parse_t_str, cfg_parse_line, cfg_parse_assign, print_line, rtrim,
  drop_last,
}
use frelay.Config.Assign.{var_of, assigned, is_known, cfg_parse_assign-lookup}
use frelay.Config.Line.{IsName, IsTrimmed, cfg_parse_line-print}
use frelay.Transfer.{Transfer, ttype_offer, ttype_download, transfer_match, remove_selected}
use frelay.Transfer.Removal.{Removed, transfer_match-Removed}

abbrev table : List CfgDef
table =
    record { name = codes "port"; var = cfg_parse_t_int 64740 }
    ∷ record { name = codes "motd"; var = cfg_parse_t_str none }
    ∷ []

motd-IsName : IsName (codes "motd")
unfolding is_space
motd-IsName = (refl, ((refl, refl), ((refl, refl), ((refl, refl), ((refl, refl), tt)))))

text-IsTrimmed : IsTrimmed (codes "a b")
unfolding is_space rtrim drop_last
text-IsTrimmed = (refl, refl)

cfg_parse_line-print_example :
    cfg_parse_line (print_line (codes "motd") (codes "a b")) table
    ≡ cfg_parse_assign (codes "motd") (codes "a b") table
cfg_parse_line-print_example =
    cfg_parse_line-print (codes "motd") (codes "a b") table motd-IsName text-IsTrimmed

cfg_parse_assign-lookup_example :
    (var_of (cfg_parse_assign (codes "port") (codes "0x50") table).0 (codes "port")
      ≡ assigned
          (str_eq (codes "port") (codes "port"))
          (codes "0x50")
          (var_of table (codes "port")))
    × ((cfg_parse_assign (codes "port") (codes "0x50") table).1
        ≡ is_known (var_of table (codes "port")))
cfg_parse_assign-lookup_example =
    cfg_parse_assign-lookup (codes "port") (codes "0x50") table (codes "port")

abbrev offer : Transfer
offer = record {
  type = ttype_offer;
  rid = 7;
  oid = 10;
  name = some (codes "x.txt");
  partname = none;
  size = 5;
  offset = 0;
  fd = none;
  tstart = 100;
  tact = 100;
}

abbrev download : Transfer
download = record offer { type = ttype_download }

-- The pattern `O,*,*`.
transfer_match-Removed_example :
    Removed b'O'
      (b'*' ∷ [])
      (b'*' ∷ [])
      (offer ∷ download ∷ [])
      (remove_selected b'O' (b'*' ∷ []) (b'*' ∷ []) (offer ∷ download ∷ [])).0
      (remove_selected b'O' (b'*' ∷ []) (b'*' ∷ []) (offer ∷ download ∷ [])).1
    × ((transfer_match ttype_offer 7 10 200
          (remove_selected b'O' (b'*' ∷ []) (b'*' ∷ []) (offer ∷ download ∷ [])).0).1
        ≡ none)
transfer_match-Removed_example =
    transfer_match-Removed b'O' (b'*' ∷ []) (b'*' ∷ []) (offer ∷ download ∷ []) ttype_offer 7 10 200
      (inr (inl (refl, refl)), inl refl, inl refl)
