-- ===== src/Init/Texts/Templates.antt =====
-- The templates of lib/src/init/InitialData.cc, line by line, with their `{{placeholders}}`.
use no.Prelude.{[], ◌∷◌, Bytes}
use no.Init.Texts.{lines}

abbrev pub security_start : Bytes
security_start = lines (
    "# Reporting Security Issues\n" ∷ "\n"
    ∷ "The (\"{{project_name_nice}}\") project team and community take security bugs in\n"
    ∷ "the (\"{{project_name_nice}}\") project seriously.\n"
    ∷ "We appreciate your efforts to disclose your findings responsibly and will make\n"
    ∷ "every effort to acknowledge your contributions. Pursuant thereto, and contingent\n"
    ∷ "on the notability of the issue and the availability of monetary resources, we\n"
    ∷ "may offer a reward for the responsible disclosure of security vulnerabilities.\n" ∷ "\n"
    ∷ [])

abbrev pub security_advisory : Bytes
security_advisory = lines (
    "Please use the GitHub Security Advisory\n"
    ∷ "[\"Report a Vulnerability\"](https://github.com/{{gh_username}}/{{project_name}}/security/advisories/new)\n"
    ∷ "tab to report a security issue.\n" ∷ "\n" ∷ [])

abbrev pub security_end : Bytes
security_end = lines (
    "The (\"{{project_name_nice}}\") project team will send a response indicating the next steps in handling\n"
    ∷ "your report. After the initial reply to your report, the security team will keep\n"
    ∷ "you informed of the progress toward a fix and full announcement and may ask for\n"
    ∷ "additional information or guidance.\n" ∷ "\n"
    ∷ "Report security bugs in third-party modules to the person or team maintaining the module.\n"
    ∷ "\n"
    ∷ "Thank you for keeping the (\"{{project_name_nice}}\") project and its community safe.\n"
    ∷ "\n" ∷ "---\n"
    ∷ "*This security policy is auto-generated for the (\"{{project_name_nice}}\") project.*\n"
    ∷ [])

abbrev pub readme_start : Bytes
readme_start = lines (
    "# {{project_name_nice}}\n" ∷ "\n"
    ∷ "![](https://img.shields.io/badge/license-{{project_escaped_spdx_license}}-b3e32d.svg)\n"
    ∷ "![](https://img.shields.io/badge/package_kind-{{project_category}}-cyan.svg)\n"
    ∷ "![](https://img.shields.io/badge/cmake_integration-true-purple.svg)\n" ∷ "\n"
    ∷ "## Overview\n" ∷ "\n" ∷ "{{project_description}}\n" ∷ "\n" ∷ "## Table of Contents\n" ∷ "\n"
    ∷ "- [{{project_name_nice}}](#{{project_name}})\n" ∷ "  - [Overview](#overview)\n"
    ∷ "  - [Table of Contents](#table-of-contents)\n" ∷ "  - [Installation](#installation)\n"
    ∷ "  - [Features](#features)\n" ∷ "  - [Technology](#technology)\n"
    ∷ "  - [Contributing](#contributing)\n" ∷ "  - [License](#license)\n" ∷ "\n"
    ∷ "## Installation\n" ∷ "\n" ∷ [])

abbrev pub install_dependency : Bytes
install_dependency = lines (
    "```bash\n" ∷ "# Change the working directory to your package\n" ∷ "cd <your_project>\n" ∷ "\n"
    ∷ "# Install this package as a dependency\n"
    ∷ "nitrate install https://github.com/{{gh_username}}/{{project_name}}\n" ∷ "```" ∷ [])

abbrev pub install_program : Bytes
install_program = lines (
    "```bash\n" ∷ "nitrate install https://github.com/{{gh_username}}/{{project_name}}\n" ∷ "```"
    ∷ [])

abbrev pub with_toolchain : Bytes
with_toolchain =
    lines ("This package should be installed by default with the Nitrate toolchain." ∷ [])

abbrev pub write_instructions : Bytes
write_instructions = lines ("TODO: Write instructions on how to install this package." ∷ [])

abbrev pub readme_end : Bytes
readme_end = lines (
    "\n" ∷ "\n" ∷ "## Features\n" ∷ "\n"
    ∷ "| Feature Name | Feature Description                  |\n"
    ∷ "| ------------ | ------------------------------------ |\n"
    ∷ "| Feature A    | Providing better handling of issue A |\n"
    ∷ "| Feature B    | Providing better handling of issue B |\n"
    ∷ "| Feature C    | Providing better handling of issue C |\n" ∷ "\n" ∷ "## Technology\n" ∷ "\n"
    ∷ "| Tech Name        | URL                  |\n"
    ∷ "| ---------------- | -------------------- |\n"
    ∷ "| Nitrate Language | https://nitrate.dev/ |\n" ∷ "\n" ∷ "## Contributing\n" ∷ "\n"
    ∷ "Contributions are welcome! Please submit a pull request or open an issue if you have suggestions.\n"
    ∷ "\n" ∷ "## License\n" ∷ "\n"
    ∷ "This project is licensed under the **{{project_spdx_license}}** license. See the [LICENSE](LICENSE) file for more information.\n"
    ∷ [])

abbrev pub contributing : Bytes
contributing = lines (
    "# Contributing to the (\"{{project_name_nice}}\") Project\n" ∷ "\n" ∷ "**LEGAL NOTICE**\n"
    ∷ "\n" ∷ "1. Regarding Your contributions and the legality thereof, all intellectual property\n"
    ∷ "   delivered to the (\"Maintainers\") of this (\"{{project_name_nice}}\") project is\n"
    ∷ "   required to be usable by the (\"Maintainers\") for any purpose reasonably\n"
    ∷ "   foreseeable and/or expected by a software project maintainer.\n" ∷ "\n"
    ∷ "2. To decline compliance with clause 1, conspicuously state these declinations at\n"
    ∷ "least once per submission that does not comply with clause 1.\n" ∷ "\n"
    ∷ "In summary, this means granting the project maintainers an eternal, worldwide, nonexclusive,\n"
    ∷ "revocable license to use Your content to interact with You and the project's community.\n"
    ∷ "The actual ownership of Your submissions is not affected by this clause.\n" ∷ [])

abbrev pub cmake_lists : Bytes
cmake_lists = lines (
    "cmake_minimum_required(VERSION 3.15)\n"
    ∷ "set(THIS_PROJECT_NAME \"nitrate-{{project_name}}\")\n" ∷ "project(${THIS_PROJECT_NAME})\n"
    ∷ "\n" ∷ "################################################################################\n"
    ∷ "# USER CONFIGURATION SECTION\n"
    ∷ "################################################################################\n"
    ∷ "set(PACKAGE_DIRECTORY \"${CMAKE_CURRENT_SOURCE_DIR}\")\n"
    ∷ "find_program(NITRATE_TOOL_EXE \"nitrate\" REQUIRED)\n" ∷ "\n"
    ∷ "################################################################################\n"
    ∷ "# SCRIPT INVARIANT ASSERTIONS\n"
    ∷ "################################################################################\n"
    ∷ "message(STATUS \"Found compiler at ${NITRATE_TOOL_EXE}\")\n" ∷ "if(NOT BUILD_MODE)\n"
    ∷ "  set(BUILD_MODE \"--rapid\")\n"
    ∷ "elseif(NOT BUILD_MODE STREQUAL \"--rapid\" AND NOT BUILD_MODE STREQUAL \"--debug\" AND NOT BUILD_MODE STREQUAL \"--release\")\n"
    ∷ "  message(FATAL_ERROR \"Invalid build mode: ${BUILD_MODE}. Valid options are '--rapid', '--debug', '--release'\")\n"
    ∷ "else()\n" ∷ "  message(STATUS \"Building ${THIS_PROJECT_NAME} in ${BUILD_MODE} mode\")\n"
    ∷ "endif()\n" ∷ "\n"
    ∷ "################################################################################\n"
    ∷ "# INVOKE THE NITRATE BUILD TOOL\n"
    ∷ "################################################################################\n"
    ∷ "add_custom_target(\n" ∷ "  ${THIS_PROJECT_NAME} # Set the target name\n"
    ∷ "  ALL # Run this target everytime; Caching is the nitrate build tools job.\n"
    ∷ "  COMMAND ${NITRATE_TOOL_EXE} build ${BUILD_MODE} ${PACKAGE_DIRECTORY} # Invoke the build tool\n"
    ∷ ")\n" ∷ [])
