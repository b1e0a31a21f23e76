-- ===== src/Runs/Names.antt =====
-- transfer.c: names and ids of a download. cltmain.c: the name of a command.
use frelay.Common.{◌≡◌, ◌⊎◌, arith, codes, true, none, some}
use frelay.Transfer.{ttype_download}
use frelay.Transfer.FileAccess.{make_filenames, name_rounds}
use frelay.Transfer.Ids.{transfer_strtoi, itostr_ids}
use frelay.Transfer.Names.{HasNames, NoNames, make_filenames-HasNames}
use frelay.Transfer.Reading.{transfer_strtoi-itostr_ids}
use frelay.Client.CommandLine.{cmd_list, find_cmd}
use frelay.Client.Lookup.{candidates, chosen, find_cmd-chosen}
use frelay.Runs.Transfers.{files, download}

make_filenames-HasNames_example :
    HasNames files (codes "a.txt") name_rounds (make_filenames files download (codes "a.txt") true)
    ⊎ NoNames files (codes "a.txt") name_rounds (make_filenames files download (codes "a.txt") true)
make_filenames-HasNames_example = make_filenames-HasNames files download (codes "a.txt")

transfer_strtoi-itostr_ids_example :
    transfer_strtoi true (itostr_ids download) ≡ some (3, some ttype_download, 1, 77)
transfer_strtoi-itostr_ids_example = transfer_strtoi-itostr_ids download (omega arith) (omega arith)

find_cmd-chosen_example :
    find_cmd (codes "LOGI") cmd_list none ≡ chosen (candidates (codes "LOGI") cmd_list)
find_cmd-chosen_example =
    find_cmd-chosen (codes "LOGI") cmd_list
      (omega arith, (omega arith, (omega arith, (omega arith, tt))))
