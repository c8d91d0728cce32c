-- ===== src/Init/Texts.antt =====
-- The fixed texts of lib/src/init/InitialData.cc, line by line.
pub mod Conduct
pub mod Templates
use Prim.Native.String.{String}
use no.Prelude.{List, [], ◌∷◌, ◌++◌, Bytes, codes}

abbrev pub lines : List String → Bytes
lines [] = []
lines (l ∷ ls) = codes l ++ lines ls

abbrev pub docker_ignore : Bytes
docker_ignore = lines (".no3/\n" ∷ ".git/\n" ∷ [])

abbrev pub git_ignore : Bytes
git_ignore = lines (
    "# Prerequisites\n" ∷ "*.d\n" ∷ "\n" ∷ "# Compiled Object files\n" ∷ "*.slo\n" ∷ "*.lo\n"
    ∷ "*.o\n" ∷ "*.obj\n" ∷ "\n" ∷ "# Precompiled Headers\n" ∷ "*.gch\n" ∷ "*.pch\n" ∷ "\n"
    ∷ "# Compiled Dynamic libraries\n" ∷ "*.so\n" ∷ "*.dylib\n" ∷ "*.dll\n" ∷ "\n"
    ∷ "# Fortran module files\n" ∷ "*.mod\n" ∷ "*.smod\n" ∷ "\n" ∷ "# Compiled Static libraries\n"
    ∷ "*.lai\n" ∷ "*.la\n" ∷ "*.a\n" ∷ "*.lib\n" ∷ "\n" ∷ "# Executables\n" ∷ "*.exe\n" ∷ "*.out\n"
    ∷ "*.app\n" ∷ "\n" ∷ "# Nitrate specific artifacts\n" ∷ ".no3/\n" ∷ "\n" ∷ "# Other\n" ∷ [])

abbrev pub git_keep : Bytes
git_keep = []

abbrev pub default_library_source : Bytes
default_library_source = lines (
    "@use \"v1.0\";\n" ∷ "\n" ∷ "import std::io;\n" ∷ "\n" ∷ "scope example_lib {\n"
    ∷ "  pub fn foo(): i32 {\n" ∷ "    print(\"Hello, world!\");\n" ∷ "    ret 20;\n" ∷ "  }\n"
    ∷ "\n" ∷ "  pub fn pure bar(x: i32, y: str): i32 {\n" ∷ "    print(\"x: \", x, \", y: \", y);\n"
    ∷ "    ret x + y.len();\n" ∷ "  }\n" ∷ "}\n" ∷ [])

abbrev pub default_main_source : Bytes
default_main_source = lines (
    "@use \"v1.0\";\n" ∷ "\n" ∷ "import std.io;\n" ∷ "import std.time;\n" ∷ "\n"
    ∷ "pub fn main(args: [str]): i32 {\n" ∷ "  let day = std::time::now().day_of_week();\n"
    ∷ "  print(f\"Welcome, it is a beautiful {day}!\");\n" ∷ "\n"
    ∷ "  if \"--help\" in args || \"-h\" in args {\n" ∷ "    print(\"Usage: main [options]\");\n"
    ∷ "    print(\"Options:\");\n" ∷ "    print(\"  --help: Display this help message.\");\n"
    ∷ "    print(\"  --version: Display the version of the program.\");\n" ∷ "    ret 0;\n"
    ∷ "  }\n" ∷ "\n" ∷ "  if \"--version\" in args || \"-v\" in args {\n"
    ∷ "    print(\"main v1.0.0\");\n" ∷ "    ret 0;\n" ∷ "  }\n" ∷ "\n" ∷ "  ret 0;\n" ∷ "}\n" ∷ [])
