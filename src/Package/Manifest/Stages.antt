-- ===== src/Package/Manifest/Stages.antt =====
-- The setters of the stages of `Manifest::Optimization::Switch` in
-- lib/src/core/package/Manifest.hh, each of which returns `*this`.
use no.Prelude.{Bool, [], Bytes}
use no.Prelude.Sets.{bytes_order, add, remove, contains}
use no.Package.Manifest.{Flags, Switch}

abbrev pub set_alpha : Flags → Switch → Switch
set_alpha flags s = record s { alpha = flags }

abbrev pub set_beta : Flags → Switch → Switch
set_beta flags s = record s { beta = flags }

abbrev pub set_gamma : Flags → Switch → Switch
set_gamma flags s = record s { gamma = flags }

abbrev pub set_llvm : Flags → Switch → Switch
set_llvm flags s = record s { llvm = flags }

abbrev pub set_lto : Flags → Switch → Switch
set_lto flags s = record s { lto = flags }

abbrev pub set_runtime : Flags → Switch → Switch
set_runtime flags s = record s { runtime = flags }

abbrev pub clear_alpha : Switch → Switch
clear_alpha s = record s { alpha = [] }

abbrev pub clear_beta : Switch → Switch
clear_beta s = record s { beta = [] }

abbrev pub clear_gamma : Switch → Switch
clear_gamma s = record s { gamma = [] }

abbrev pub clear_llvm : Switch → Switch
clear_llvm s = record s { llvm = [] }

abbrev pub clear_lto : Switch → Switch
clear_lto s = record s { lto = [] }

abbrev pub clear_runtime : Switch → Switch
clear_runtime s = record s { runtime = [] }

abbrev pub set_alpha_flag : Bytes → Switch → Switch
set_alpha_flag flag s = record s { alpha = add flag s.alpha }

abbrev pub set_beta_flag : Bytes → Switch → Switch
set_beta_flag flag s = record s { beta = add flag s.beta }

abbrev pub set_gamma_flag : Bytes → Switch → Switch
set_gamma_flag flag s = record s { gamma = add flag s.gamma }

abbrev pub set_llvm_flag : Bytes → Switch → Switch
set_llvm_flag flag s = record s { llvm = add flag s.llvm }

abbrev pub set_lto_flag : Bytes → Switch → Switch
set_lto_flag flag s = record s { lto = add flag s.lto }

abbrev pub set_runtime_flag : Bytes → Switch → Switch
set_runtime_flag flag s = record s { runtime = add flag s.runtime }

abbrev pub clear_alpha_flag : Bytes → Switch → Switch
clear_alpha_flag flag s = record s { alpha = remove flag s.alpha }

abbrev pub clear_beta_flag : Bytes → Switch → Switch
clear_beta_flag flag s = record s { beta = remove flag s.beta }

abbrev pub clear_gamma_flag : Bytes → Switch → Switch
clear_gamma_flag flag s = record s { gamma = remove flag s.gamma }

abbrev pub clear_llvm_flag : Bytes → Switch → Switch
clear_llvm_flag flag s = record s { llvm = remove flag s.llvm }

abbrev pub clear_lto_flag : Bytes → Switch → Switch
clear_lto_flag flag s = record s { lto = remove flag s.lto }

abbrev pub clear_runtime_flag : Bytes → Switch → Switch
clear_runtime_flag flag s = record s { runtime = remove flag s.runtime }

abbrev pub contains_alpha_flag : Bytes → Switch → Bool
contains_alpha_flag flag s = contains flag s.alpha

abbrev pub contains_beta_flag : Bytes → Switch → Bool
contains_beta_flag flag s = contains flag s.beta

abbrev pub contains_gamma_flag : Bytes → Switch → Bool
contains_gamma_flag flag s = contains flag s.gamma

abbrev pub contains_llvm_flag : Bytes → Switch → Bool
contains_llvm_flag flag s = contains flag s.llvm

abbrev pub contains_lto_flag : Bytes → Switch → Bool
contains_lto_flag flag s = contains flag s.lto

abbrev pub contains_runtime_flag : Bytes → Switch → Bool
contains_runtime_flag flag s = contains flag s.runtime
